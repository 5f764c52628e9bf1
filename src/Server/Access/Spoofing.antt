-- ===== src/Server/Access/Spoofing.antt =====
-- Only a trusted proxy can say whose request it sends.
use c3x_pricing_api.Base.{ℕ, ◌≡◌, refl, String, Bool, false, arith}
use c3x_pricing_api.Base.Int.{ℤ}
use c3x_pricing_api.Server.Limiter.{Limiters}
use c3x_pricing_api.Server.Access.{
  Headers, Proxies, peer, is_trusted, client_ip, rate_limit_middleware,
}

client_ip-untrusted :
    (net : Proxies) (remote_addr : String) (h : Headers)
    → is_trusted net (peer net remote_addr) ≡ false
    → client_ip net remote_addr h ≡ peer net remote_addr
unfolding client_ip
client_ip-untrusted net remote_addr h untrusted = ground arith

-- A peer that is no trusted proxy is limited under its own address, whatever headers it sends: they
-- change neither the limiters nor the answer.
pub rate_limit_middleware-untrusted :
    (per_sec : ℤ) (net : Proxies) (allow : ℕ → Bool) (now : ℕ) (remote_addr : String)
    (h h' : Headers) (s : Limiters)
    → is_trusted net (peer net remote_addr) ≡ false
    → (client_ip net remote_addr h ≡ peer net remote_addr)
      × (rate_limit_middleware per_sec net allow now remote_addr h s
          ≡ rate_limit_middleware per_sec net allow now remote_addr h' s)
unfolding rate_limit_middleware
rate_limit_middleware-untrusted per_sec net allow now remote_addr h h' s untrusted = (
  client_ip-untrusted net remote_addr h untrusted,
  rw
      (
        client_ip-untrusted net remote_addr h untrusted,
        client_ip-untrusted net remote_addr h' untrusted,
      )
      refl,
)
