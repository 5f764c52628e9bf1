-- ===== src/Server/Limiter/Validity.antt =====
-- The map and the list of the limiters agree, and the list is bounded and in order of use.
use c3x_pricing_api.Base.{
  ℕ, ◌≤◌, ◌<◌, ◌≡◌, refl, ap, ◌∙◌, subst, String, none, some, List, [], ◌∷◌, ◌++◌, false, leb,
  eq_iff, eq_refl, length, length-append, arith, is_some, Bool-cases, inl, inr, Option-cases,
}
use c3x_pricing_api.Server.Limiter.{
  IpLimiter, Limiters, max_rate_limiters, find, remove, delete, touch, make_room, add, get_limiter,
}
use c3x_pricing_api.Server.Limiter.Lists.{
  AreDistinct, AreOrdered, find-append, find-remove, find-ip, length-remove, remove-AreDistinct,
  append-AreDistinct, remove-AreOrdered, append-AreOrdered,
}

pub record IsValid (now : ℕ) (s : Limiters) : Type 0 where
  pub synced : (ip : String) → s.limiters ip ≡ is_some (find ip s.lru)
  pub distinct : AreDistinct s.lru
  pub bounded : length s.lru ≤ max_rate_limiters
  pub ordered : AreOrdered now s.lru

-- Removing an element and pushing one of the same IP to the front.
renew-IsValid :
    (then' now : ℕ) (ip : String) (s : Limiters) (e f : IpLimiter)
    → then' ≤ now
    → IsValid then' s
    → find ip s.lru ≡ some e
    → f.ip ≡ ip
    → f.last_use ≡ now
    → IsValid now (record s { lru = remove ip s.lru ++ f ∷ [] })
unfolding find
renew-IsValid m now ip s e f le v found same used =
    let fresh : find f.ip (remove ip s.lru) ≡ none =
      find-remove ip f.ip s.lru v.distinct ∙ rw same (rw (eq_refl ip) refl) in
    record {
      synced = λ k. ground (
        arith,
        v.synced k,
        find-append k (remove ip s.lru) (f ∷ []),
        find-remove ip k s.lru v.distinct,
        eq_iff ip k,
        eq_iff f.ip k,
      );
      distinct =
          append-AreDistinct (remove ip s.lru) f (remove-AreDistinct ip s.lru v.distinct) fresh;
      bounded = omega (
        arith,
        length-append (remove ip s.lru) (f ∷ []),
        length-remove ip s.lru e found,
        v.bounded,
      );
      ordered = append-AreOrdered m now _ f le (remove-AreOrdered m ip s.lru v.ordered) used;
    }

add-IsValid :
    (then' now : ℕ) (ip : String) (s : Limiters)
    → then' ≤ now
    → IsValid then' s
    → s.limiters ip ≡ false
    → length s.lru < max_rate_limiters
    → IsValid now (add now ip s).0
unfolding add find
add-IsValid m now ip s le v new room =
    let e : IpLimiter = record { ip = ip; limiter = s.created; last_use = now } in
    let fresh : find ip s.lru ≡ none = ground (arith, v.synced ip) in
    record {
      synced = λ k. ground (arith, v.synced k, find-append k s.lru (e ∷ []), eq_iff ip k);
      distinct = append-AreDistinct s.lru e v.distinct fresh;
      bounded = omega (arith, length-append s.lru (e ∷ []));
      ordered = append-AreOrdered m now s.lru e le v.ordered refl;
    }

-- Dropping the element at the back, in the list and in the map.
pub drop_back-IsValid :
    (now : ℕ) (s : Limiters) (e : IpLimiter) (lru : List IpLimiter)
    → s.lru ≡ e ∷ lru
    → IsValid now s
    → IsValid now (record s { lru = lru; limiters = delete e.ip s.limiters })
unfolding find
drop_back-IsValid now s e lru same v =
    let d : AreDistinct (e ∷ lru) = subst AreDistinct same v.distinct in
    let o : AreOrdered now (e ∷ lru) = subst (AreOrdered now) same v.ordered in
    record {
      synced = λ k.
          let held : s.limiters k ≡ is_some (find k (e ∷ lru)) =
            v.synced k ∙ ap (λ xs. is_some (find k xs)) same in
          ground (arith, held, eq_iff e.ip k, d.0);
      distinct = d.1;
      bounded = omega (arith, v.bounded, ap length same);
      ordered = o.2;
    }

make_room-IsValid :
    (now : ℕ) (s : Limiters) (lru : List IpLimiter)
    → s.lru ≡ lru
    → IsValid now s
    → IsValid now (make_room lru s)
unfolding make_room
make_room-IsValid now s [] same v = v
make_room-IsValid now s (e ∷ lru) same v =
    elim (Bool-cases (leb max_rate_limiters (length s.lru))) [
      | inl full ↦ rw full (drop_back-IsValid now s e lru same v)
      | inr room ↦ rw room v
    ]

make_room-room :
    (s : Limiters) (lru : List IpLimiter)
    → s.lru ≡ lru
    → length s.lru ≤ max_rate_limiters
    → length (make_room lru s).lru < max_rate_limiters
unfolding make_room
make_room-room s [] same h = omega (arith, ap length same)
make_room-room s (e ∷ lru) same h = ground (arith, ap length same)

make_room-absent :
    (ip : String) (s : Limiters) (lru : List IpLimiter)
    → s.limiters ip ≡ false
    → (make_room lru s).limiters ip ≡ false
unfolding make_room
make_room-absent ip s [] h = h
make_room-absent ip s (e ∷ lru) h = ground arith

-- At a later time a request keeps the limiters valid: the map has exactly the IPs of the list,
-- each once, the list has at most 10000 elements, and it is in order of use.
pub get_limiter-IsValid :
    (then' now : ℕ) (ip : String) (s : Limiters)
    → then' ≤ now
    → IsValid then' s
    → IsValid now (get_limiter now ip s).0
unfolding get_limiter
get_limiter-IsValid m now ip s le v = elim (Bool-cases (s.limiters ip)) [
  | inl held ↦ elim (Option-cases (find ip s.lru)) [
    | inl missing ↦ absurd (ground (arith, v.synced ip))
    | inr (e, found) ↦
        rw (held, found)
          (renew-IsValid m now ip s e (record e { last_use = now }) le v found
            (find-ip ip s.lru e found) refl)
  ]
  | inr new ↦ rw new (
      add-IsValid m now ip (make_room s.lru s) le (make_room-IsValid m s s.lru refl v)
        (make_room-absent ip s s.lru new) (make_room-room s s.lru refl v.bounded))
]

renewed-find :
    (then' now : ℕ) (ip : String) (s : Limiters) (e f : IpLimiter)
    → IsValid then' s
    → f.ip ≡ ip
    → find ip (remove ip s.lru ++ f ∷ [])
      ≡ some (record { ip = ip; limiter = f.limiter; last_use = f.last_use })
unfolding find
renewed-find m now ip s e f v same = ground (
  arith,
  find-append ip (remove ip s.lru) (f ∷ []),
  find-remove ip ip s.lru v.distinct,
  eq_refl ip,
  eq_iff f.ip ip,
)

added-find :
    (then' now : ℕ) (ip : String) (s : Limiters)
    → IsValid then' s
    → s.limiters ip ≡ false
    → let (s', limiter) = add now ip (make_room s.lru s) in
      find ip s'.lru ≡ some (record { ip = ip; limiter = limiter; last_use = now })
unfolding add find
added-find m now ip s v new =
    let r = make_room s.lru s in
    let w = make_room-IsValid m s s.lru refl v in
    ground (
      arith,
      w.synced ip,
      make_room-absent ip s s.lru new,
      find-append ip r.lru (record { ip = ip; limiter = r.created; last_use = now } ∷ []),
      eq_refl ip,
    )

-- The limiter that a request gets is the one that the list holds for its IP afterwards, and it is
-- the one held before, if there was one: no IP gets a fresh bucket while it has an old one.
pub get_limiter-find :
    (then' now : ℕ) (ip : String) (s : Limiters)
    → IsValid then' s
    → let (s', limiter) = get_limiter now ip s in
      (find ip s'.lru ≡ some (record { ip = ip; limiter = limiter; last_use = now }))
      × ((e : IpLimiter) → find ip s.lru ≡ some e → limiter ≡ e.limiter)
unfolding get_limiter add touch
get_limiter-find m now ip s v = elim (Bool-cases (s.limiters ip)) [
  | inl held ↦ elim (Option-cases (find ip s.lru)) [
    | inl missing ↦ absurd (ground (arith, v.synced ip))
    | inr (e, found) ↦
        let f : IpLimiter = record e { last_use = now } in
        rw (held, found)
          (renewed-find m now ip s e f v (find-ip ip s.lru e found), λ d same. ground (arith, same))
  ]
  | inr new ↦
      rw new (added-find m now ip s v new, λ e same. absurd (ground (arith, v.synced ip, same)))
]
