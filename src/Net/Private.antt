-- ===== src/Net/Private.antt =====
-- The two tests of an address: isPrivateIP of internal/validate/url.go, before a request, and isBlockedIP
-- of internal/safehttp/safehttp.go, when it dials.
use wachd.Base.{
  ℕ, ◌*◌, ◌+◌, ◌/◌, ◌^◌, ◌%◌, Bool, ◌&&◌, ◌||◌, List, [], ◌∷◌, any, ◌==◌, ◌≡◌, arith, ◌-◌, false,
}
use wachd.Net.{Addr, v4, v6, Prefix, contains, unmap, quad}

abbrev v4_net : ℕ → ℕ → ℕ → ℕ → ℕ → Prefix
v4_net a b c d bits = record { base = v4 (quad a b c d); bits = bits }

-- A prefix whose first sixteen bits are given.
abbrev v6_net : ℕ → ℕ → Prefix
v6_net high bits = record { base = v6 (high * 2 ^ 112); bits = bits }

abbrev pub private_nets : List Prefix
private_nets =
    v4_net 10 0 0 0 8
    ∷ v4_net 172 16 0 0 12
    ∷ v4_net 192 168 0 0 16
    ∷ v4_net 127 0 0 0 8
    ∷ v4_net 169 254 0 0 16
    ∷ record { base = v6 1; bits = 128 }
    ∷ v6_net 0xfc00 7
    ∷ v6_net 0xfe80 10
    ∷ v4_net 100 64 0 0 10
    ∷ v4_net 224 0 0 0 4
    ∷ v4_net 240 0 0 0 4
    ∷ v4_net 192 0 0 0 24
    ∷ v4_net 198 18 0 0 15
    ∷ v4_net 192 0 2 0 24
    ∷ v4_net 198 51 100 0 24
    ∷ v4_net 203 0 113 0 24
    ∷ record { base = v6 (0x2001 * 2 ^ 112 + 0xdb8 * 2 ^ 96); bits = 32 }
    ∷ []

is_zero : Addr → Bool
is_zero (v4 a) = a == 0
is_zero (v6 a) = a == 0

unfoldable pub is_private_ip : Addr → Bool
unfolding is_zero
is_private_ip ip = is_zero (unmap ip) || any (λ n. contains n (unmap ip)) private_nets

is_loopback : Addr → Bool
is_loopback (v4 a) = a / 2 ^ 24 == 127
is_loopback (v6 a) = a == 1

is_private : Addr → Bool
is_private (v4 a) =
    a / 2 ^ 24 == 10 || a / 2 ^ 20 == 172 * 2 ^ 4 + 1 || a / 2 ^ 16 == 192 * 2 ^ 8 + 168
is_private (v6 a) = a / 2 ^ 121 == 0xfc / 2

is_link_local_unicast : Addr → Bool
is_link_local_unicast (v4 a) = a / 2 ^ 16 == 169 * 2 ^ 8 + 254
is_link_local_unicast (v6 a) = a / 2 ^ 118 == 0xfe80 / 2 ^ 6

is_link_local_multicast : Addr → Bool
is_link_local_multicast (v4 a) = a / 2 ^ 8 == 224 * 2 ^ 16
is_link_local_multicast (v6 a) = a / 2 ^ 120 == 0xff && a / 2 ^ 112 % 2 ^ 4 == 2

is_multicast : Addr → Bool
is_multicast (v4 a) = a / 2 ^ 28 == 0xe
is_multicast (v6 a) = a / 2 ^ 120 == 0xff

unfoldable pub is_blocked_ip : Addr → Bool
unfolding is_zero is_loopback is_private is_link_local_unicast is_link_local_multicast is_multicast
is_blocked_ip ip =
    is_zero (unmap ip)
    || is_loopback (unmap ip)
    || is_private (unmap ip)
    || is_link_local_unicast (unmap ip)
    || is_link_local_multicast (unmap ip)
    || is_multicast (unmap ip)

-- The special IPv4 ranges that the dialer lets through.
abbrev pub left_out : List Prefix
left_out =
    v4_net 100 64 0 0 10
    ∷ v4_net 240 0 0 0 4
    ∷ v4_net 192 0 0 0 24
    ∷ v4_net 198 18 0 0 15
    ∷ v4_net 192 0 2 0 24
    ∷ v4_net 198 51 100 0 24
    ∷ v4_net 203 0 113 0 24
    ∷ []

-- On IPv4 addresses the check before a request refuses what the dialer blocks and, besides, exactly
-- these ranges: shared address space (100.64/10), 240/4, 192.0.0/24, 198.18/15 and the three ranges for
-- documentation.
pub is_private_ip-is_blocked_ip :
    (a : ℕ) → is_private_ip (v4 a) ≡ (is_blocked_ip (v4 a) || any (λ n. contains n (v4 a)) left_out)
unfolding is_private_ip is_blocked_ip unmap is_multicast
is_private_ip-is_blocked_ip a = ground arith

-- 2001:db8::/32
abbrev pub documentation : Prefix
documentation = record { base = v6 (0x2001 * 2 ^ 112 + 0xdb8 * 2 ^ 96); bits = 32 }

-- ff00::/8
abbrev pub multicast : Prefix
multicast = v6_net 0xff00 8

-- On IPv6 addresses that are no IPv4 ones the two checks differ on two ranges: the dialer alone blocks
-- multicast, and lets the range for documentation through.
pub is_private_ip-is_blocked_ip_v6 :
    (a : ℕ)
    → (a / 2 ^ 32 == 2 ^ 16 - 1) ≡ false
    → (is_private_ip (v6 a) || contains multicast (v6 a))
      ≡ (is_blocked_ip (v6 a) || contains documentation (v6 a))
unfolding is_private_ip is_blocked_ip unmap is_multicast
is_private_ip-is_blocked_ip_v6 a plain = ground arith
