-- ===== src/Dhcp/Settings.antt =====
-- internal/dhcp/settings.go: the configuration of the DHCP server and its validation. A configured
-- text comes with what the standard parser answers for it (netip.ParseAddr, netip.ParsePrefix,
-- net.ParseMAC, hex.DecodeString; `none` is an error), so the parsers are arguments. Negative
-- counts, which validation rejects, have no counterpart. An error is the field that it names.
pub mod Validate
pub mod Consistent
use dimsum.Prelude.{
  Bool, List, Option, Result, [], drop, err, false, get_or, if◌then◌else◌, leb, length, ltb, none,
  not, ok, replicate, some, true, ℕ, ◌%◌, ◌&&◌, ◌++◌, ◌+◌, ◌-◌, ◌==◌, ◌||◌, ◌∷◌,
}
use dimsum.Prelude.Bytes.{bytes_eq}
use dimsum.Dhcp.Address.{Addr, Prefix, invalid}

abbrev pub default_max_leases : ℕ
default_max_leases = 1024

abbrev pub maximum_leases : ℕ
maximum_leases = 4096

pub record AddrText : Type 0 where
  pub text : List ℕ
  pub parsed : Option Addr

pub record PrefixText : Type 0 where
  pub text : List ℕ
  pub parsed : Option Prefix

pub record BytesText : Type 0 where
  pub text : List ℕ
  pub parsed : Option (List ℕ)

pub record Reservation : Type 0 where
  pub id : List ℕ
  pub mac : BytesText
  pub client_id : BytesText
  pub address : AddrText
  pub hostname : List ℕ

pub record Settings : Type 0 where
  pub enabled : Bool
  pub interface : List ℕ
  pub server_ip : AddrText
  pub subnet : PrefixText
  pub gateway : AddrText
  pub range_start : AddrText
  pub range_end : AddrText
  pub lease_seconds : ℕ
  pub local_domain : List ℕ
  pub max_leases : ℕ
  pub reservations : List Reservation

-- netip.MustParseAddr, whose panic is the invalid address here: it is called on settings that
-- validation accepted, and on such settings every address that the engine reads parses.
abbrev pub must_parse_addr : AddrText → Addr
must_parse_addr t = elim t.parsed [ none ↦ invalid | some a ↦ a ]

unfoldable pub capacity : Settings → ℕ
capacity s = if s.max_leases == 0 then default_max_leases else s.max_leases

abbrev pub is_empty : List ℕ → Bool
is_empty [] = true
is_empty (x ∷ xs) = false

abbrev pub is_label_byte : ℕ → Bool
is_label_byte c =
    leb b'a' c && leb c b'z' || leb b'A' c && leb c b'Z' || leb b'0' c && leb c b'9' || c == b'-'

unfoldable pub all_bytes : (ℕ → Bool) → List ℕ → Bool
all_bytes p [] = true
all_bytes p (c ∷ s) = p c && all_bytes p s

unfoldable pub valid_label : List ℕ → Bool
unfolding all_bytes
valid_label s =
    if is_empty s || ltb 63 (length s) || get_or s 0 0 == b'-' || get_or s (length s - 1) 0 == b'-'
    then false
    else all_bytes is_label_byte s

-- strings.ToLower, as far as validLabel tells its results apart: besides A-Z, the only characters
-- whose lower case is ASCII are U+212A (k) and U+0130 (i).
unfoldable pub lower_byte : ℕ → ℕ
lower_byte c = if leb b'A' c && leb c b'Z' then c + 32 else c

unfoldable pub to_lower : List ℕ → List ℕ
unfolding lower_byte
to_lower [] = []
to_lower (a ∷ []) = lower_byte a ∷ []
to_lower (a ∷ b ∷ []) =
    let rest = lower_byte a ∷ to_lower (b ∷ []) in
    if a == 0xc4 && b == 0xb0 then b'i' ∷ [] else rest
to_lower (a ∷ b ∷ c ∷ s) =
    let kelvin = b'k' ∷ to_lower s in
    let dotted = b'i' ∷ to_lower (c ∷ s) in
    let rest = lower_byte a ∷ to_lower (b ∷ c ∷ s) in
    if a == 0xe2 && b == 0x84 && c == 0xaa
    then kelvin
    else if a == 0xc4 && b == 0xb0
    then dotted
    else rest

-- strings.Split(s, "."): the pieces, of which there is one at least.
unfoldable pub split_dots : List ℕ → List ℕ → List (List ℕ)
split_dots piece [] = piece ∷ []
split_dots piece (c ∷ s) =
    let same = split_dots (piece ++ (c ∷ [])) s in
    let fresh = piece ∷ split_dots [] s in if c == b'.' then fresh else same

abbrev pub local_text : List ℕ
local_text = b'l' ∷ b'o' ∷ b'c' ∷ b'a' ∷ b'l' ∷ []

-- strings.HasSuffix
unfoldable pub has_suffix : List ℕ → List ℕ → Bool
has_suffix s t = leb (length t) (length s) && bytes_eq (drop (length s - length t) s) t

unfoldable pub all_labels : List (List ℕ) → Bool
unfolding valid_label
all_labels [] = true
all_labels (l ∷ ls) = valid_label l && all_labels ls

unfoldable pub valid_domain : List ℕ → Bool
unfolding all_labels split_dots has_suffix bytes_eq to_lower
valid_domain s =
    if ltb 189 (length s)
      || bytes_eq (to_lower s) local_text
      || has_suffix (to_lower s) (b'.' ∷ local_text)
    then false
    else all_labels (split_dots [] s)

pub data SettingsError : Type 0 where
  bad_max_leases too_many_reservations bad_interface bad_lease_seconds : SettingsError
  bad_local_domain bad_subnet bad_server_ip bad_gateway bad_range_start : SettingsError
  bad_range_end bad_reservation_key changes_while_enabled bad_dns : SettingsError
  bad_reservation : ℕ → SettingsError

-- "id:" and "mac:"
abbrev pub id_key : List ℕ → List ℕ
id_key b = b'i' ∷ b'd' ∷ b':' ∷ b

abbrev pub mac_key : List ℕ → List ℕ
mac_key m = b'm' ∷ b'a' ∷ b'c' ∷ b':' ∷ m

abbrev pub zero_mac : List ℕ
zero_mac = replicate 6 0

unfoldable pub client_key : Option (List ℕ) → Result SettingsError (List ℕ)
client_key none = err bad_reservation_key
client_key (some b) =
    if length b == 0 || ltb 255 (length b) then err bad_reservation_key else ok (id_key b)

unfoldable pub hardware_key : Option (List ℕ) → Result SettingsError (List ℕ)
unfolding bytes_eq
hardware_key none = err bad_reservation_key
hardware_key (some m) =
    if not (length m == 6) || get_or m 0 0 % 2 == 1 || bytes_eq m zero_mac
    then err bad_reservation_key
    else ok (mac_key m)

-- Exactly one of the two texts is given.
unfoldable pub reservation_key : Reservation → Result SettingsError (List ℕ)
unfolding client_key hardware_key
reservation_key r =
    if is_empty r.mac.text
    then if is_empty r.client_id.text
      then err bad_reservation_key
      else client_key r.client_id.parsed
    else if is_empty r.client_id.text
    then hardware_key r.mac.parsed
    else err bad_reservation_key
