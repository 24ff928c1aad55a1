-- ===== src/Net.antt =====
-- IP addresses of Go's packages net and net/netip, as the program uses them; zones are left out. A
-- net.IP of four bytes and one of sixteen bytes with the same IPv4 address are the same address after
-- To4, which is `unmap`.
pub mod Private
pub mod Dial
use wachd.Base.{ℕ, ◌-◌, ◌/◌, ◌%◌, ◌^◌, Bool, false, ◌==◌, if◌then◌else◌, ◌*◌, ◌+◌}

pub data Addr : Type 0 where
  v4 v6 : ℕ → Addr

pub record Prefix : Type 0 where
  pub base : Addr
  pub bits : ℕ

abbrev pub same_bits : ℕ → ℕ → ℕ → Bool
same_bits rest a b = a / 2 ^ rest == b / 2 ^ rest

abbrev pub agree : ℕ → Addr → Addr → Bool
agree bits (v4 b) (v4 a) = same_bits (32 - bits) a b
agree bits (v6 b) (v6 a) = same_bits (128 - bits) a b
agree bits _ _ = false

abbrev pub contains : Prefix → Addr → Bool
contains prefix a = agree prefix.bits prefix.base a

-- An IPv4 address that is written as an IPv6 one.
unfoldable pub unmap : Addr → Addr
unmap (v4 a) = v4 a
unmap (v6 a) = if a / 2 ^ 32 == 2 ^ 16 - 1 then v4 (a % 2 ^ 32) else v6 a

-- a.b.c.d
abbrev pub quad : ℕ → ℕ → ℕ → ℕ → ℕ
quad a b c d = ((a * 256 + b) * 256 + c) * 256 + d
