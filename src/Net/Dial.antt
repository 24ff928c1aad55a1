-- ===== src/Net/Dial.antt =====
-- safeDialer.DialContext of internal/safehttp/safehttp.go. The resolver and the TCP dial are parameters;
-- with the result stand the addresses that were dialed, in order. An address to dial is `none` where it
-- has no port.
pub mod Safe
use wachd.Base.{
  Bool, true, false, not, List, [], ◌∷◌, Option, none, some, any, Result, ok, err, is_nil,
  if◌then◌else◌,
}
use wachd.Net.{Addr, v4, v6, unmap}
use wachd.Net.Private.{is_blocked_ip}

pub data Network : Type 0 where
  tcp4 tcp6 tcp : Network

-- A host: an address, or a name with what its lookup gives, where an entry may have no address.
pub data Host : Type 0 where
  literal : Addr → Host
  named : Option (List (Option Addr)) → Host

pub data DialError : Type 0 where
  invalid_address lookup_failed no_addresses blocked refused incompatible : DialError

unfoldable pub known : List (Option Addr) → List Addr
known [] = []
known (none ∷ rest) = known rest
known (some ip ∷ rest) = unmap ip ∷ known rest

unfoldable pub resolve : Host → Result DialError (List Addr)
unfolding known
resolve (literal ip) = ok (unmap ip ∷ [])
resolve (named none) = err lookup_failed
resolve (named (some addrs)) = ok (known addrs)

unfoldable pub is_v4 : Addr → Bool
is_v4 (v4 a) = true
is_v4 (v6 a) = false

unfoldable pub is_compatible : Network → Addr → Bool
unfolding is_v4
is_compatible tcp4 ip = is_v4 (unmap ip)
is_compatible tcp6 ip = not (is_v4 (unmap ip))
is_compatible tcp ip = true

last_error : Bool → DialError
last_error true = refused
last_error false = incompatible

-- The loop over the addresses; `tried` says whether a dial has failed before.
unfoldable pub dial_each :
    (Addr → Bool) → Network → Bool → List Addr → Result DialError Addr × List Addr
unfolding last_error
dial_each dial network tried [] = (err (last_error tried), [])
dial_each dial network tried (ip ∷ ips) =
    let skipped = dial_each dial network tried ips in
    let failed = dial_each dial network true ips in
    if is_compatible network ip
    then (if dial ip then (ok ip, ip ∷ []) else (failed.0, ip ∷ failed.1))
    else skipped

unfoldable pub dial_resolved :
    (Addr → Bool) → Network → Result DialError (List Addr) → Result DialError Addr × List Addr
unfolding dial_each
dial_resolved dial network (err e) = (err e, [])
dial_resolved dial network (ok ips) =
    if is_nil ips
    then (err no_addresses, [])
    else if any is_blocked_ip ips
    then (err blocked, [])
    else dial_each dial network false ips

unfoldable pub dial_context :
    (Addr → Bool) → Network → Option Host → Result DialError Addr × List Addr
unfolding dial_resolved resolve
dial_context dial network none = (err invalid_address, [])
dial_context dial network (some host) = dial_resolved dial network (resolve host)
