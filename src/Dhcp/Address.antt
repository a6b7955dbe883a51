-- ===== src/Dhcp/Address.antt =====
-- The part of net/netip that internal/dhcp uses, and ipv4Number, numberIPv4 and usable of
-- internal/dhcp/settings.go. An IPv4 address is its number; `invalid` is the zero Addr.
use dimsum.Prelude.{
  Bool, Option, arith, false, if◌then◌else◌, leb, none, not, refl, some, true, ℕ, ◌&&◌, ◌*◌, ◌+◌,
  ◌-◌, ◌/◌, ◌<◌, ◌==◌, ◌^◌, ◌||◌, ◌↔◌, ◌≡◌,
}
use dimsum.Prelude.Maps.{Key}

pub data Addr : Type 0 where
  invalid : Addr
  v4 : ℕ → Addr
  v6 : ℕ → Addr

-- a == b
unfoldable pub same_addr : Addr → Addr → Bool
same_addr invalid invalid = true
same_addr (v4 m) (v4 n) = m == n
same_addr (v6 m) (v6 n) = m == n
same_addr a b = false

pub same_addr_iff : (a b : Addr) → (same_addr a b ≡ true) ↔ (a ≡ b)
unfolding same_addr
same_addr_iff invalid invalid = ground arith
same_addr_iff invalid (v4 n) = ground arith
same_addr_iff invalid (v6 n) = ground arith
same_addr_iff (v4 m) invalid = ground arith
same_addr_iff (v4 m) (v4 n) = ground arith
same_addr_iff (v4 m) (v6 n) = ground arith
same_addr_iff (v6 m) invalid = ground arith
same_addr_iff (v6 m) (v4 n) = ground arith
same_addr_iff (v6 m) (v6 n) = ground arith

instance abbrev pub addr_key : Key Addr
addr_key = record { same = same_addr; same_iff = same_addr_iff }

abbrev pub is4 : Addr → Bool
is4 (v4 n) = true
is4 a = false

-- IsValid
abbrev pub is_valid : Addr → Bool
is_valid invalid = false
is_valid a = true

abbrev pub is_unspecified : Addr → Bool
is_unspecified invalid = false
is_unspecified (v4 n) = n == 0
is_unspecified (v6 n) = n == 0

-- The next four are asked of IPv4 addresses only.
abbrev pub is_loopback : Addr → Bool
is_loopback (v4 n) = n / 2 ^ 24 == 127
is_loopback a = false

abbrev pub is_multicast : Addr → Bool
is_multicast (v4 n) = n / 2 ^ 28 == 14
is_multicast a = false

abbrev pub is_link_local_unicast : Addr → Bool
is_link_local_unicast (v4 n) = n / 2 ^ 16 == 43_518
is_link_local_unicast a = false

-- As4()[0] >= 240
abbrev pub is_reserved_class : Addr → Bool
is_reserved_class (v4 n) = leb 240 (n / 2 ^ 24)
is_reserved_class a = false

abbrev pub ipv4_number : Addr → ℕ
ipv4_number (v4 n) = n
ipv4_number a = 0

-- Of a uint32.
abbrev pub number_ipv4 : ℕ → Addr
number_ipv4 n = v4 n

pub record Prefix : Type 0 where
  pub address : Addr
  pub bits : ℕ

-- The bits above the host bits agree.
unfoldable pub same_network : Addr → Addr → ℕ → Bool
same_network (v4 m) (v4 n) b = m / 2 ^ (32 - b) == n / 2 ^ (32 - b)
same_network (v6 m) (v6 n) b = m / 2 ^ (128 - b) == n / 2 ^ (128 - b)
same_network p a b = false

-- Contains
unfoldable pub contains_addr : Prefix → Addr → Bool
unfolding same_network
contains_addr p a = same_network p.address a p.bits

-- The address of Masked: the host bits are zero.
abbrev pub masked : Prefix → Addr
masked p = elim p.address [
  | invalid ↦ invalid
  | v4 n ↦ v4 (n / 2 ^ (32 - p.bits) * 2 ^ (32 - p.bits))
  | v6 n ↦ v6 (n / 2 ^ (128 - p.bits) * 2 ^ (128 - p.bits))
]

-- IsUnspecified, IsLoopback, IsMulticast, IsLinkLocalUnicast and class E, as the callers test them.
unfoldable pub is_special : Addr → Bool
is_special a =
    is_unspecified a
    || is_multicast a
    || is_loopback a
    || is_link_local_unicast a
    || is_reserved_class a

-- `none` is the invalid prefix. `base` and `end` are the network and broadcast addresses.
unfoldable pub usable : Addr → Option Prefix → Bool
unfolding is_special contains_addr
usable a none = false
usable a (some p) =
    if not (is4 a) || not (is4 p.address) || not (contains_addr p a) || is_special a
    then false
    else let base = ipv4_number (masked p) in
      not (ipv4_number a == base) && not (ipv4_number a == base + 2 ^ (32 - p.bits) - 1)

-- nonzero of internal/dhcp/engine.go
abbrev pub nonzero : Addr → Bool
nonzero a = is_valid a && not (is_unspecified a)

pub usable-v4 : (a : Addr) (p : Option Prefix) → usable a p ≡ true → (n : ℕ) × (a ≡ v4 n) × (0 < n)
unfolding usable is_special
usable-v4 invalid none h = absurd (ground arith)
usable-v4 invalid (some p) h = absurd (ground arith)
usable-v4 (v4 n) none h = absurd (ground arith)
usable-v4 (v4 n) (some p) h = (n, refl, ground arith)
usable-v4 (v6 n) none h = absurd (ground arith)
usable-v4 (v6 n) (some p) h = absurd (ground arith)
