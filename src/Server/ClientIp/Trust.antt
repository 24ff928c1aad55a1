-- ===== src/Server/ClientIp/Trust.antt =====
-- What a client can and cannot say about its own address.
use wachd.Base.{
  ap, String, true, false, List, [], ◌∷◌, ◌++◌, Option, none, some, all, ◌≡◌, refl, arith, ◌⊎◌, inr,
  Bool-cases, inl,
}
use wachd.Net.{Addr, Prefix, unmap}
use wachd.Server.ClientIp.{
  is_trusted_proxy, parse_x_forwarded_for, last_untrusted, client_in, webhook_client_ip, addr,
}

-- What a proxy writes: each part is an address.
abbrev pub written : List Addr → List (Option Addr)
written [] = []
written (a ∷ chain) = some a ∷ written chain

abbrev pub unmapped : List Addr → List Addr
unmapped [] = []
unmapped (a ∷ chain) = unmap a ∷ unmapped chain

parse_x_forwarded_for-written :
    (chain : List Addr) → parse_x_forwarded_for (written chain) ≡ some (unmapped chain)
unfolding parse_x_forwarded_for
parse_x_forwarded_for-written [] = refl
parse_x_forwarded_for-written (a ∷ chain) = rw (parse_x_forwarded_for-written chain) refl

last_untrusted-proxies :
    (trusted : List Prefix) (proxies : List Addr)
    → all (λ a. is_trusted_proxy trusted (unmap a)) proxies ≡ true
    → last_untrusted trusted (unmapped proxies) ≡ none
unfolding last_untrusted
last_untrusted-proxies trusted [] t = refl
last_untrusted-proxies trusted (a ∷ proxies) t =
    rw (last_untrusted-proxies trusted proxies (ground arith)) (ground arith)

last_untrusted-client :
    (trusted : List Prefix) (forged proxies : List Addr) (client : Addr)
    → is_trusted_proxy trusted (unmap client) ≡ false
    → all (λ a. is_trusted_proxy trusted (unmap a)) proxies ≡ true
    → last_untrusted trusted (unmapped (forged ++ client ∷ proxies)) ≡ some (unmap client)
unfolding last_untrusted
last_untrusted-client trusted [] proxies client c t =
    rw (last_untrusted-proxies trusted proxies t, c) refl
last_untrusted-client trusted (a ∷ forged) proxies client c t =
    rw (last_untrusted-client trusted forged proxies client c t) refl

client_in-found :
    (trusted : List Prefix) (peer : Addr) (chain : List Addr) {client : Addr}
    → last_untrusted trusted chain ≡ some client
    → client_in trusted peer chain ≡ client
unfolding client_in last_untrusted
client_in-found trusted peer [] e = ground arith
client_in-found trusted peer (first ∷ chain) {client} e = ground arith

-- Behind trusted proxies a client is known by the address that the first of them saw: what the client
-- itself put in front of the header does not count, as long as it is made of addresses.
pub webhook_client_ip_unforgeable :
    (trusted : List Prefix) (remote_host : String) (peer client : Addr) (forged proxies : List Addr)
    → is_trusted_proxy trusted (unmap peer) ≡ true
    → is_trusted_proxy trusted (unmap client) ≡ false
    → all (λ a. is_trusted_proxy trusted (unmap a)) proxies ≡ true
    → webhook_client_ip trusted remote_host (some peer) (written (forged ++ client ∷ proxies))
      ≡ addr (unmap client)
unfolding webhook_client_ip
webhook_client_ip_unforgeable trusted remote_host peer client forged proxies p c t =
    rw (p, parse_x_forwarded_for-written (forged ++ client ∷ proxies))
      (ap addr (
        client_in-found trusted (unmap peer) (unmapped (forged ++ client ∷ proxies))
          {client = unmap client} (last_untrusted-client trusted forged proxies client c t)))

-- Headers matter only from a trusted proxy: a request from anywhere else counts the same whatever
-- X-Forwarded-For it carries.
pub webhook_client_ip_ignores :
    (trusted : List Prefix) (remote_host : String) (remote : Option Addr)
    (forwarded other : List (Option Addr))
    → ((peer : Addr) × (remote ≡ some peer) × (is_trusted_proxy trusted (unmap peer) ≡ true))
      ⊎ (webhook_client_ip trusted remote_host remote forwarded
          ≡ webhook_client_ip trusted remote_host remote other)
unfolding webhook_client_ip
webhook_client_ip_ignores trusted remote_host none forwarded other = inr refl
webhook_client_ip_ignores trusted remote_host (some peer) forwarded other =
    elim (Bool-cases (is_trusted_proxy trusted (unmap peer))) [
      | inl t ↦ inl (peer, refl, t)
      | inr f ↦ inr (rw f refl)
    ]
