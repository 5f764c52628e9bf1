-- ===== src/Server/Limiter/Tests.antt =====
-- One limiter in use, at time 9.
use c3x_pricing_api.Base.{refl, [], ◌∷◌, false, arith}
use c3x_pricing_api.Server.Limiter.{IpLimiter, Limiters, find, put, get_limiter}
use c3x_pricing_api.Server.Limiter.Validity.{IsValid, get_limiter-IsValid}

abbrev client : IpLimiter
client = record { ip = "10.0.0.1"; limiter = 0; last_use = 4 }

abbrev one_client : Limiters
one_client = record { lru = client ∷ []; limiters = put "10.0.0.1" (λ k. false); created = 1 }

one_client-IsValid : IsValid 9 one_client
unfolding find
one_client-IsValid = record {
  synced = λ k. ground arith;
  distinct = (refl, _);
  bounded = omega arith;
  ordered = ground arith;
}

get_limiter-IsValid_example : IsValid 12 (get_limiter 12 "10.0.0.2" one_client).0
get_limiter-IsValid_example =
    get_limiter-IsValid 9 12 "10.0.0.2" one_client (omega arith) one_client-IsValid
