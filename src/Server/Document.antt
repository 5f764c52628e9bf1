-- ===== src/Server/Document.antt =====
-- internal/server/server.go: the checks of a parsed query, `computeQueryDepthFromAST` and
-- `astContainsIntrospection`, with the selection-set walks under them.
pub mod Names
pub mod Paths
pub mod Introspection
pub mod Deepest
pub mod Depth
use c3x_pricing_api.Base.{
  ℕ, zero, suc, ◌+◌, String, Option, none, some, List, [], ◌∷◌, Bool, true, false, ltb, str_eq,
  ◌||◌, if◌then◌else◌, length,
}

-- The selections of a set, by the first of them; `end` is also the nil of a field with no set.
pub data Selections : Type 0 where
  end : Selections
  field : String → Selections → Selections → Selections
  inline_fragment : Selections → Selections → Selections
  fragment_spread : String → Selections → Selections

pub data Definition : Type 0 where
  operation : Selections → Definition
  fragment : String → Selections → Definition

abbrev pub Fragments : Type 0
Fragments = String → Option Selections

-- The first loop over the definitions: of two fragments with one name the later one counts.
unfoldable pub collect : List Definition → Fragments → Fragments
collect [] m = m
collect (operation ss ∷ defs) m = collect defs m
collect (fragment name ss ∷ defs) m = collect defs λ k. if str_eq name k then some ss else m k

abbrev pub visit : String → (String → Bool) → String → Bool
visit name visited k = if str_eq name k then true else visited k

abbrev pub deeper : ℕ → ℕ → ℕ
deeper max_depth child_depth = if ltb max_depth child_depth then child_depth else max_depth

-- The loop of selectionSetDepth, from `max_depth` on; `spread` is the depth of a fragment spread.
unfoldable pub set_depth : (String → ℕ) → ℕ → Selections → ℕ
set_depth spread max_depth end = max_depth
set_depth spread max_depth (field name ss rest) =
    set_depth spread (deeper max_depth (1 + set_depth spread 0 ss)) rest
set_depth spread max_depth (inline_fragment ss rest) =
    set_depth spread (deeper max_depth (set_depth spread 0 ss)) rest
set_depth spread max_depth (fragment_spread name rest) =
    set_depth spread (deeper max_depth (spread name)) rest

-- A name is visited while its fragment is walked, and deleted on the way back; `fuel` bounds the
-- fragments inside each other.
unfoldable pub spread_depth : ℕ → Fragments → (String → Bool) → String → ℕ
spread_depth zero fragments visited name = 0
spread_depth (suc fuel) fragments visited name = if visited name then 0 else elim (fragments name) [
  | none ↦ 0
  | some ss ↦ set_depth (spread_depth fuel fragments (visit name visited)) 0 ss
]

abbrev pub nothing_visited : String → Bool
nothing_visited k = false

unfoldable pub selection_set_depth : ℕ → Fragments → Selections → ℕ
selection_set_depth fuel fragments ss = set_depth (spread_depth fuel fragments nothing_visited) 0 ss

-- The second loop over the definitions.
unfoldable pub operations_depth : ℕ → Fragments → ℕ → List Definition → ℕ
operations_depth fuel fragments max_depth [] = max_depth
operations_depth fuel fragments max_depth (operation ss ∷ defs) =
    operations_depth fuel fragments (deeper max_depth (selection_set_depth fuel fragments ss)) defs
operations_depth fuel fragments max_depth (fragment name ss ∷ defs) =
    operations_depth fuel fragments max_depth defs

abbrev pub no_fragments : Fragments
no_fragments k = none

unfoldable pub compute_query_depth_from_ast : List Definition → ℕ
compute_query_depth_from_ast defs =
    operations_depth (length defs) (collect defs no_fragments) 0 defs

abbrev pub is_introspection : String → Bool
is_introspection name = str_eq name "__schema" || str_eq name "__type"

-- The loop of selectionSetHasIntrospection.
unfoldable pub set_introspects : (String → Bool) → Selections → Bool
set_introspects spread end = false
set_introspects spread (field name ss rest) =
    is_introspection name || set_introspects spread ss || set_introspects spread rest
set_introspects spread (inline_fragment ss rest) =
    set_introspects spread ss || set_introspects spread rest
set_introspects spread (fragment_spread name rest) = spread name || set_introspects spread rest

unfoldable pub spread_introspects : ℕ → Fragments → (String → Bool) → String → Bool
spread_introspects zero fragments visited name = false
spread_introspects (suc fuel) fragments visited name =
    if visited name then false else elim (fragments name) [
      | none ↦ false
      | some ss ↦ set_introspects (spread_introspects fuel fragments (visit name visited)) ss
    ]

unfoldable pub selection_set_has_introspection : ℕ → Fragments → Selections → Bool
selection_set_has_introspection fuel fragments ss =
    set_introspects (spread_introspects fuel fragments nothing_visited) ss

unfoldable pub operations_introspect : ℕ → Fragments → List Definition → Bool
operations_introspect fuel fragments [] = false
operations_introspect fuel fragments (operation ss ∷ defs) =
    selection_set_has_introspection fuel fragments ss || operations_introspect fuel fragments defs
operations_introspect fuel fragments (fragment name ss ∷ defs) =
    operations_introspect fuel fragments defs

unfoldable pub ast_contains_introspection : List Definition → Bool
ast_contains_introspection defs =
    operations_introspect (length defs) (collect defs no_fragments) defs
