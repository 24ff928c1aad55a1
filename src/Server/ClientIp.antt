-- ===== src/Server/ClientIp.antt =====
-- webhookClientIP of cmd/server/main.go: whose requests the webhook's rate limiter counts together. The
-- text of an address is given by what netip.ParseAddr makes of it, `none` where it fails; the parts of
-- X-Forwarded-For stand in their order, and an absent or empty header has none.
pub mod Trust
use wachd.Base.{String, Bool, true, false, List, [], ◌∷◌, Option, none, some, any, if◌then◌else◌}
use wachd.Net.{Addr, Prefix, contains, unmap}

unfoldable pub is_trusted_proxy : List Prefix → Addr → Bool
is_trusted_proxy trusted addr = any (λ prefix. contains prefix addr) trusted

-- The whole header is refused for one part that is no address.
unfoldable pub parse_x_forwarded_for : List (Option Addr) → Option (List Addr)
parse_x_forwarded_for [] = some []
parse_x_forwarded_for (none ∷ parts) = none
parse_x_forwarded_for (some addr ∷ parts) = elim (parse_x_forwarded_for parts) [
  | none ↦ none
  | some addrs ↦ some (unmap addr ∷ addrs)
]

-- The loop from the end of the chain to the first address that is no trusted proxy.
unfoldable pub last_untrusted : List Prefix → List Addr → Option Addr
unfolding is_trusted_proxy
last_untrusted trusted [] = none
last_untrusted trusted (addr ∷ chain) = elim (last_untrusted trusted chain) [
  | some client ↦ some client
  | none ↦ if is_trusted_proxy trusted addr then none else some addr
]

-- The client in a chain, for a peer that is a proxy; the peer itself where the chain is empty.
unfoldable pub client_in : List Prefix → Addr → List Addr → Addr
unfolding last_untrusted
client_in trusted peer [] = peer
client_in trusted peer (first ∷ chain) = elim (last_untrusted trusted (first ∷ chain)) [
  | some client ↦ client
  | none ↦ first
]

unfoldable pub behind_proxy : List Prefix → Addr → Option (List Addr) → Addr
unfolding client_in
behind_proxy trusted peer none = peer
behind_proxy trusted peer (some chain) = client_in trusted peer chain

-- A peer whose address does not parse is known by its text.
pub data ClientIp : Type 0 where
  text : String → ClientIp
  addr : Addr → ClientIp

unfoldable pub webhook_client_ip :
    List Prefix → String → Option Addr → List (Option Addr) → ClientIp
unfolding behind_proxy
webhook_client_ip trusted remote_host none forwarded = text remote_host
webhook_client_ip trusted remote_host (some remote) forwarded =
    if is_trusted_proxy trusted (unmap remote)
    then addr (behind_proxy trusted (unmap remote) (parse_x_forwarded_for forwarded))
    else addr (unmap remote)
