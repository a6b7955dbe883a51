-- ===== src/DnsWire/Record.antt =====
-- internal/dnswire/records.go: the data of a record and of EDNS, and `ReadOption`; and
-- `decodeNameChecked` of personalize.go with the `nameBoundaries` of ttl.go.
pub mod Safety
use dimsum.Prelude.{
  ℕ, ◌+◌, ◌-◌, ◌*◌, ◌%◌, Bool, false, ◌&&◌, ◌||◌, Option, none, some, List, [], ◌∷◌, ltb, leb, ◌==◌,
  if◌then◌else◌, length, Result, ok, err, ◌>>=◌, ◌>>◌, guard, Round, done, more, loop,
}
use dimsum.Prelude.Bytes.{at, slice, u16, bytes_eq}
use dimsum.DnsWire.Errors
use dimsum.DnsWire.Errors.{WireError}
use dimsum.DnsWire.Name.{Name, decode_name, top_bits, contains}

-- Answer, Authority and Additional are the sections 0, 1 and 2.
abbrev pub answer : ℕ
answer = 0

abbrev pub authority : ℕ
authority = 1

abbrev pub additional : ℕ
additional = 2

-- `ttl_offset` is `none` for -1.
pub record ResourceRecord : Type 0 where
  pub name : Name
  pub rtype : ℕ
  pub rclass : ℕ
  pub ttl : ℕ
  pub section : ℕ
  pub start : ℕ
  pub ttl_offset : Option ℕ
  pub data_offset : ℕ
  pub end : ℕ
  pub rdata : List ℕ

pub record Edns : Type 0 where
  pub present : Bool
  pub dnssec_ok : Bool
  pub udp_size : ℕ
  pub flags : ℕ
  pub version : ℕ
  pub extended_rcode : ℕ
  pub record_offset : ℕ
  pub options : List ℕ

abbrev pub no_edns : Edns
no_edns = record {
  present = false;
  dnssec_ok = false;
  udp_size = 0;
  flags = 0;
  version = 0;
  extended_rcode = 0;
  record_offset = 0;
  options = [];
}

pub record EdnsOption : Type 0 where
  pub code : ℕ
  pub payload : List ℕ

-- The option at an offset, with the next offset.
unfoldable pub read_option : List ℕ → ℕ → Result WireError (EdnsOption × ℕ)
read_option options off =
    if ltb (length options) off || ltb (length options - off) 4 then err WireError.bad_edns else (do
      n ← u16 options (off + 2)
      let end = off + 4 + n
      guard (leb end (length options)) WireError.bad_edns
      code ← u16 options off
      payload ← slice options (off + 4) end
      ok (record { code = code; payload = payload }, end))

-- The loop of `readOPT` over the options.
unfoldable pub options_step : List ℕ → ℕ → Result WireError (Round ℕ (Unit {0}))
options_step options off =
    if ltb off (length options)
    then (do (option, next) ← read_option options off; ok (more next))
    else ok (done tt)

unfoldable pub read_options : List ℕ → Result WireError (Unit {0})
read_options options = loop (length options + 1) (options_step options) 0

-- `nameBoundaries`, a set of 65536 bits, as the list of its members.
abbrev pub Marks : Type 0
Marks = List ℕ

-- One round of `nameBoundaries.add`.
unfoldable pub add_step : List ℕ → ℕ × Marks → Result WireError (Round (ℕ × Marks) Marks)
add_step msg (off, marks) = do
  b ← at msg off
  if top_bits b == 3
      then (do
        lo ← at msg (off + 1)
        guard (contains marks (b % 64 * 256 + lo)) WireError.template
        ok (done (off ∷ marks)))
      else if b == 0
      then ok (done (off ∷ marks))
      else ok (more (off + (1 + b), off ∷ marks))

unfoldable pub add_name : List ℕ → ℕ → Marks → Result WireError Marks
add_name msg off marks = loop (length msg + 1) (add_step msg) (off, marks)

abbrev add_optional : List ℕ → ℕ → Option Marks → Result WireError (Option Marks)
add_optional msg off none = ok none
add_optional msg off (some marks) = do marks' ← add_name msg off marks; ok (some marks')

abbrev same_as : Option (List ℕ) → ℕ → Name → Result WireError (Unit {0})
same_as none off name = ok tt
same_as (some reference) off name = do
  before ← decode_name reference off
  guard
      (name.end == before.end
        && length name.wire == length before.wire
        && bytes_eq name.canonical before.canonical)
      WireError.name_changed

-- `decodeNameChecked`; the marks are `names` after the call.
unfoldable pub decode_checked :
    List ℕ → Option (List ℕ) → ℕ → Option Marks → Result WireError (Name × Option Marks)
decode_checked msg reference off names = do
  name ← decode_name msg off
  names' ← add_optional msg off names
  same_as reference off name
  ok (name, names')
