-- ===== src/Server/Inflight.antt =====
-- internal/server/server.go: `inflightLimit`, and the semaphore of `inflightMiddleware` as a state
-- machine over the requests, which are known by numbers.
pub mod Bounded
use c3x_pricing_api.Base.{ℕ, ◌+◌, ◌-◌, ◌<◌, ◌≤◌, ◌≡◌, List, [], ◌∷◌, ◌++◌, if◌then◌else◌}
use c3x_pricing_api.Base.Int.{ℤ, pos, ◌-ℤ◌, ltb_ℤ, leb_ℤ, eq_ℤ}

unfoldable pub inflight_limit : ℤ → ℤ → ℤ
unfolding ◌-ℤ◌
inflight_limit configured pool_max =
    if eq_ℤ configured (pos 0)
    then (if leb_ℤ pool_max (pos 0)
        then pos 0
        else if leb_ℤ (pos 1) (pool_max -ℤ pos 2)
        then pool_max -ℤ pos 2
        else pos 1)
    else if ltb_ℤ configured (pos 0)
    then pos 0
    else configured

-- `slots` counts what the channel holds; `waiting` are the requests in the inner select, `busy`
-- those answered with 503.
pub record Inflight : Type 0 where
  pub slots : ℕ
  pub running : List ℕ
  pub waiting : List ℕ
  pub busy : List ℕ

abbrev pub idle : Inflight
idle = record { slots = 0; running = []; waiting = []; busy = [] }

-- A send on the channel goes through while it holds less than its capacity.
pub data Step (cap : ℕ) : Inflight → Inflight → Type 0 where
  enter :
      {s : Inflight} (id : ℕ)
      → s.slots < cap
      → Step cap s (record s { slots = s.slots + 1; running = id ∷ s.running })
  wait :
      {s : Inflight} (id : ℕ) → cap ≤ s.slots → Step cap s (record s { waiting = id ∷ s.waiting })
  enter_late :
      {s : Inflight} (before after : List ℕ) (id : ℕ)
      → s.waiting ≡ before ++ id ∷ after
      → s.slots < cap
      → Step cap s
          (record s { slots = s.slots + 1; running = id ∷ s.running; waiting = before ++ after })
  time_out :
      {s : Inflight} (before after : List ℕ) (id : ℕ)
      → s.waiting ≡ before ++ id ∷ after
      → Step cap s (record s { waiting = before ++ after; busy = id ∷ s.busy })
  cancel :
      {s : Inflight} (before after : List ℕ) (id : ℕ)
      → s.waiting ≡ before ++ id ∷ after
      → Step cap s (record s { waiting = before ++ after })
  -- The deferred receive, which waits for the channel to hold something.
  leave :
      {s : Inflight} (before after : List ℕ) (id : ℕ)
      → s.running ≡ before ++ id ∷ after
      → 0 < s.slots
      → Step cap s (record s { slots = s.slots - 1; running = before ++ after })

pub data Reach (cap : ℕ) (s : Inflight) : Inflight → Type 0 where
  here : Reach cap s s
  next : {t u : Inflight} → Reach cap s t → Step cap t u → Reach cap s u
