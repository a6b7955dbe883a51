-- ===== src/Dhcp/Settings/Validate.antt =====
-- internal/dhcp/settings.go: ValidateSettings, ValidateTransition and validateDNS. The prefix and the
-- addresses are `none` and `invalid` where the source keeps zero values.
use dimsum.Prelude.{
  Bool, List, Option, Result, [], err, false, guard, if◌then◌else◌, leb, length, ltb, none, not, ok,
  panic, some, stuck, true, ℕ, ◌&&◌, ◌+◌, ◌-◌, ◌==◌, ◌>>=◌, ◌>>◌, ◌||◌, ◌∷◌,
}
use dimsum.Prelude.Bytes.{bytes_eq, bytes_key}
use dimsum.Prelude.Maps.{contains}
use dimsum.Dhcp.Address.{
  Addr, Prefix, invalid, ipv4_number, is4, is_special, is_valid, masked, same_addr, usable, v4, v6,
  addr_key,
}
use dimsum.Dhcp.Settings.{
  AddrText, Reservation, Settings, SettingsError, all_bytes, bad_dns, bad_gateway, bad_interface,
  bad_lease_seconds, bad_local_domain, bad_max_leases, bad_range_end, bad_range_start,
  bad_reservation, bad_server_ip, bad_subnet, capacity, changes_while_enabled, is_empty,
  maximum_leases, must_parse_addr, reservation_key, to_lower, too_many_reservations, valid_domain,
  valid_label,
}

-- strings.ContainsAny(s, " /\t\r\n\x00")
abbrev pub is_interface_byte : ℕ → Bool
is_interface_byte c = not (c == b' ' || c == b'/' || c == 9 || c == 13 || c == 10 || c == 0)

-- The prefix of the subnet text, if one is required or given.
unfoldable pub check_subnet : Settings → Result SettingsError (Option Prefix)
check_subnet s =
    if s.enabled || not (is_empty s.subnet.text)
    then elim s.subnet.parsed [
      | none ↦ err bad_subnet
      | some p ↦
          if not (is4 p.address) || ltb 30 p.bits || not (same_addr p.address (masked p))
          then err bad_subnet
          else ok (some p)
    ]
    else ok none

-- p.IsValid()
abbrev pub has_prefix : Option Prefix → Bool
has_prefix none = false
has_prefix (some p) = true

unfoldable pub check_address :
    Settings → Option Prefix → SettingsError → AddrText → Result SettingsError Addr
check_address s p e t = if not s.enabled && is_empty t.text then ok invalid else elim t.parsed [
  | none ↦ err e
  | some a ↦
      if not (is4 a) || is_special a || (has_prefix p && not (usable a p)) then err e else ok a
]

-- The pool has at most 65536 addresses, and neither of the two others is in it.
unfoldable pub check_pool : Addr → Addr → Addr → Addr → Result SettingsError (Unit {0})
check_pool server gateway start end =
    let lo = ipv4_number start in
    let hi = ipv4_number end in
    let outside : Addr → Bool =
      λ a. not (is_valid a && leb lo (ipv4_number a) && leb (ipv4_number a) hi) in
    if is_valid start && is_valid end
    then (guard (not (ltb hi lo || ltb 65_536 (hi - lo + 1))) bad_range_end
        >> guard (outside server) bad_server_ip
        >> guard (outside gateway) bad_gateway)
    else ok tt

-- The maps that find duplicates.
pub record Seen : Type 0 where
  pub ids : List (List ℕ)
  pub keys : List (List ℕ)
  pub ips : List Addr
  pub names : List (List ℕ)

unfoldable pub check_key : ℕ → Reservation → Result SettingsError (List ℕ)
check_key i r = elim (reservation_key r) [
  | ok k ↦ ok k
  | err e ↦ err (bad_reservation i)
  | panic ↦ panic
  | stuck ↦ stuck
]

unfoldable pub check_reserved :
    ℕ → Option Prefix → Addr → Addr → Seen → Reservation → Result SettingsError Addr
check_reserved i p server gateway seen r = elim r.address.parsed [
  | none ↦ err (bad_reservation i)
  | some a ↦
      if not (usable a p) || same_addr a server || same_addr a gateway || contains a seen.ips
      then err (bad_reservation i)
      else ok a
]

unfoldable pub check_hostname : ℕ → Seen → List ℕ → Result SettingsError (List (List ℕ))
check_hostname i seen [] = ok seen.names
check_hostname i seen (c ∷ h) = do
  let name = to_lower (c ∷ h)
  guard (valid_label name && not (contains name seen.names)) (bad_reservation i)
  ok (name ∷ seen.names)

unfoldable pub check_reservation :
    ℕ → Option Prefix → Addr → Addr → Seen → Reservation → Result SettingsError Seen
check_reservation i p server gateway seen r = do
  guard (valid_label r.id && not (contains r.id seen.ids)) (bad_reservation i)
  key ← check_key i r
  guard (not (contains key seen.keys)) (bad_reservation i)
  a ← check_reserved i p server gateway seen r
  names ← check_hostname i seen r.hostname
  ok (record { ids = r.id ∷ seen.ids; keys = key ∷ seen.keys; ips = a ∷ seen.ips; names = names })

unfoldable pub check_reservations :
    ℕ → Option Prefix → Addr → Addr → Seen → List Reservation → Result SettingsError (Unit {0})
check_reservations i p server gateway seen [] = ok tt
check_reservations i p server gateway seen (r ∷ rs) =
    check_reservation i p server gateway seen r >>= λ seen'.
    check_reservations (i + 1) p server gateway seen' rs

-- The checks before the addresses.
unfoldable pub check_scalars : Settings → Result SettingsError (Unit {0})
check_scalars s = do
  guard (leb 1 (capacity s) && leb (capacity s) maximum_leases) bad_max_leases
  guard (leb (length s.reservations) (capacity s)) too_many_reservations
  guard
      (not (
        (s.enabled || not (is_empty s.interface))
        && (is_empty s.interface
            || ltb 15 (length s.interface)
            || not (all_bytes is_interface_byte s.interface))))
      bad_interface
  guard
      (not (
        (s.enabled || not (s.lease_seconds == 0))
        && (ltb s.lease_seconds 60 || ltb 604_800 s.lease_seconds)))
      bad_lease_seconds
  guard (not ((s.enabled || not (is_empty s.local_domain)) && not (valid_domain s.local_domain)))
      bad_local_domain

-- The checks once the addresses are parsed.
unfoldable pub check_hosts :
    Settings → Option Prefix → Addr → Addr → Addr → Addr → Result SettingsError (Unit {0})
check_hosts s p server gateway start end = do
  check_pool server gateway start end
  guard (not (is_valid server && same_addr server gateway)) bad_gateway
  check_reservations 0 p server gateway (record { ids = []; keys = []; ips = []; names = [] })
      s.reservations

-- The checks once the subnet is parsed.
unfoldable pub check_network : Settings → Option Prefix → Result SettingsError (Unit {0})
check_network s p = do
  server ← check_address s p bad_server_ip s.server_ip
  gateway ← check_address s p bad_gateway s.gateway
  start ← check_address s p bad_range_start s.range_start
  end ← check_address s p bad_range_end s.range_end
  check_hosts s p server gateway start end

unfoldable pub validate_settings : Settings → Result SettingsError (Unit {0})
validate_settings s = do check_scalars s; p ← check_subnet s; check_network s p

unfoldable pub validate_transition : Settings → Settings → Result SettingsError (Unit {0})
validate_transition old next = do
  validate_settings next
  guard
      (not (
        old.enabled
        && next.enabled
        && (not (bytes_eq old.interface next.interface)
            || not (bytes_eq old.server_ip.text next.server_ip.text)
            || not (bytes_eq old.subnet.text next.subnet.text)
            || not (bytes_eq old.local_domain next.local_domain))))
      changes_while_enabled

-- validateDNS; a listener is what netip.ParseAddrPort answers for it.
unfoldable pub serves_dns : Addr → Bool → List (Option (Addr × ℕ)) → Bool
serves_dns server dual [] = false
serves_dns server dual (none ∷ ls) = serves_dns server dual ls
serves_dns server dual (some (a, port) ∷ ls) =
    port == 53 && (same_addr a server || same_addr a (v4 0) || (dual && same_addr a (v6 0)))
    || serves_dns server dual ls

unfoldable pub validate_dns :
    Settings → List (Option (Addr × ℕ)) → Bool → Result SettingsError (Unit {0})
validate_dns s listeners dual =
    guard (not s.enabled || serves_dns (must_parse_addr s.server_ip) dual listeners) bad_dns
