-- ===== src/Server/Inflight/Bounded.antt =====
-- The requests that run at once stay within the limit, and none waits to give its slot back.
use c3x_pricing_api.Base.{
  ℕ, ◌+◌, ◌-◌, ◌≤◌, ◌≡◌, refl, ap, List, ◌∷◌, ◌++◌, length, length-append, arith,
}
use c3x_pricing_api.Base.Int.{pos, ◌-ℤ◌}
use c3x_pricing_api.Server.Inflight.{
  Inflight, inflight_limit, idle, Step, enter, wait, enter_late, time_out, cancel, leave, Reach,
  here, next,
}

record IsCounted (cap : ℕ) (s : Inflight) : Type 0 where
  pub counted : s.slots ≡ length s.running
  pub bounded : s.slots ≤ cap

length-extract :
    (xs before after : List ℕ) (x : ℕ)
    → xs ≡ before ++ x ∷ after
    → length xs ≡ length (before ++ after) + 1
length-extract xs before after x e =
    omega (arith, ap length e, length-append before (x ∷ after), length-append before after)

Step-IsCounted : (cap : ℕ) (s t : Inflight) → Step cap s t → IsCounted cap s → IsCounted cap t
Step-IsCounted cap s _ (enter id room) v = record {
  counted = omega (arith, v.counted);
  bounded = omega arith;
}
Step-IsCounted cap s _ (wait id full) v = record { counted = v.counted; bounded = v.bounded }
Step-IsCounted cap s _ (enter_late before after id e room) v = record {
  counted = omega (arith, v.counted);
  bounded = omega arith;
}
Step-IsCounted cap s _ (time_out before after id e) v = record {
  counted = v.counted;
  bounded = v.bounded;
}
Step-IsCounted cap s _ (cancel before after id e) v = record {
  counted = v.counted;
  bounded = v.bounded;
}
Step-IsCounted cap s _ (leave before after id e held) v = record {
  counted = omega (arith, v.counted, length-extract s.running before after id e);
  bounded = omega (arith, v.bounded);
}

Reach-IsCounted : (cap : ℕ) (s : Inflight) → Reach cap idle s → IsCounted cap s
Reach-IsCounted cap s here = record { counted = refl; bounded = omega arith }
Reach-IsCounted cap s (next r step) = Step-IsCounted cap _ s step (Reach-IsCounted cap _ r)

-- However requests come, wait, time out, are cancelled and leave, at most as many run at once as
-- the semaphore has slots, and a request that is done can always give its slot back: the receive
-- does not block.
pub Reach-bounded :
    (cap : ℕ) (s : Inflight)
    → Reach cap idle s
    → (length s.running ≤ cap)
      × ((before after : List ℕ) (id : ℕ)
          → s.running ≡ before ++ id ∷ after
          → Step cap s (record s { slots = s.slots - 1; running = before ++ after }))
Reach-bounded cap s r =
    let v = Reach-IsCounted cap s r in
    (
      omega (arith, v.counted, v.bounded),
      λ before after id e.
          leave before after id e
            (omega (arith, v.counted, length-extract s.running before after id e)),
    )

-- The limit derived from a pool of at least three connections leaves two of them to requests that
-- are not for /graphql, at any time.
pub inflight_limit-spare :
    (pool_max cap : ℕ) (s : Inflight)
    → 3 ≤ pool_max
    → inflight_limit (pos 0) (pos pool_max) ≡ pos cap
    → Reach cap idle s
    → length s.running + 2 ≤ pool_max
unfolding inflight_limit ◌-ℤ◌
inflight_limit-spare pool_max cap s big derived r =
    let below : cap + 2 ≤ pool_max = ground (arith, derived) in
    omega (arith, (Reach-bounded cap s r).0, below)
