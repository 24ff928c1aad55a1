-- ===== src/Examples/Net.antt =====
-- Addresses: a client behind a proxy, and a name that resolves to two addresses.
use wachd.Base.{false, Bool, List, [], ◌∷◌, some, any, ok, ◌≡◌, refl, ◌||◌, ◌==◌}
use wachd.Net.{Addr, v4, v6, Prefix, quad, unmap, contains}
use wachd.Net.Private.{is_private_ip, is_blocked_ip, left_out, is_private_ip-is_blocked_ip}
use wachd.Net.Dial.{is_compatible, tcp, Host, named, resolve, dial_context}
use wachd.Server.ClientIp.{is_trusted_proxy, webhook_client_ip, addr}
use wachd.Server.ClientIp.Trust.{written, webhook_client_ip_unforgeable}

abbrev proxies : List Prefix
proxies = record { base = v4 (quad 10 0 0 0); bits = 8 } ∷ []

abbrev ingress : Addr
ingress = v4 (quad 10 0 0 1)

abbrev client : Addr
client = v4 (quad 8 8 8 8)

webhook_client_ip_unforgeable_example :
    webhook_client_ip proxies "10.0.0.1"
      (some ingress)
      (written (v4 (quad 1 1 1 1) ∷ client ∷ ingress ∷ []))
    ≡ addr client
unfolding is_trusted_proxy unmap
webhook_client_ip_unforgeable_example =
    webhook_client_ip_unforgeable proxies "10.0.0.1" ingress client (v4 (quad 1 1 1 1) ∷ [])
      (ingress ∷ []) refl refl refl

is_private_ip-is_blocked_ip_example : is_private_ip (v4 (quad 100 64 0 1)) ≡ (
    is_blocked_ip (v4 (quad 100 64 0 1)) || any (λ n. contains n (v4 (quad 100 64 0 1))) left_out)
is_private_ip-is_blocked_ip_example = is_private_ip-is_blocked_ip (quad 100 64 0 1)

abbrev site : Host
site = named (some (some (v4 (quad 8 8 4 4)) ∷ some client ∷ []))

-- Only the second address answers.
abbrev up : Addr → Bool
up (v4 a) = a == quad 8 8 8 8
up (v6 a) = false

site_answers : (dial_context up tcp (some site)).0 ≡ ok client
unfolding dial_context resolve unmap is_blocked_ip is_compatible
site_answers = refl
