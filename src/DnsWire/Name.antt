-- ===== src/DnsWire/Name.antt =====
-- internal/dnswire/name.go: `DecodeName`. The loop body is `decode_step`; its variables are the
-- fields of `Decoder`.
pub mod Safety
pub mod Plain
use dimsum.Prelude.{
  ℕ, ◌+◌, ◌*◌, ◌/◌, ◌%◌, Bool, true, false, ◌&&◌, ◌||◌, not, Option, none, some, List, [], ◌∷◌,
  ◌++◌, map, ltb, leb, ◌==◌, if◌then◌else◌, length, Result, ok, err, ◌>>=◌, Round, done, more, loop,
}
use dimsum.Prelude.Bytes.{at, slice}
use dimsum.DnsWire.Errors.{
  WireError, bounds, label_encoding, pointer, name_too_long, max_name_len, max_pointers,
  max_message_len,
}

-- `wire` and `canonical` are the first `Length` bytes of the arrays; the rest of those stay zero.
pub record Name : Type 0 where
  pub wire : List ℕ
  pub canonical : List ℕ
  pub end : ℕ
  pub compressed : Bool

-- `end` is `none` for -1. `visited` is `visited[:jumps]`, `wire` is `out.Wire[:n]`.
pub record Decoder : Type 0 where
  pub off : ℕ
  pub visited : List ℕ
  pub end : Option ℕ
  pub wire : List ℕ
  pub canonical : List ℕ
  pub compressed : Bool

-- The two high bits of a byte: `c & 0xc0` is 64 times this.
abbrev pub top_bits : ℕ → ℕ
top_bits c = c / 64 % 4

abbrev pub fold_case : ℕ → ℕ
fold_case b = if leb b'A' b && leb b b'Z' then b + 32 else b

unfoldable pub contains : List ℕ → ℕ → Bool
contains [] x = false
contains (y ∷ ys) x = y == x || contains ys x

-- `if end < 0 { end = e }`
abbrev pub set_end : Option ℕ → ℕ → ℕ
set_end none e = e
set_end (some e') e = e'

-- `case 0xc0`
unfoldable pub decode_pointer : List ℕ → ℕ → Decoder → Result WireError (Round Decoder Name)
decode_pointer msg c s = if leb (length msg) (s.off + 1) then err bounds else (do
  lo ← at msg (s.off + 1)
  let target = c % 64 * 256 + lo
  if leb s.off target || length s.visited == max_pointers
      then err pointer
      else if contains s.visited s.off
      then err pointer
      else ok (
          more (record {
            off = target;
            visited = s.visited ++ (s.off ∷ []);
            end = some (set_end s.end (s.off + 2));
            wire = s.wire;
            canonical = s.canonical;
            compressed = true;
          })))

-- `case 0`
unfoldable pub decode_label : List ℕ → ℕ → Decoder → Result WireError (Round Decoder Name)
decode_label msg c s =
    let n = length s.wire in
    if ltb (length msg) (s.off + 1 + c)
    then err bounds
    else if ltb max_name_len (n + 1 + c) || (not (c == 0) && n + 1 + c == max_name_len)
    then err name_too_long
    else (do
      label ← slice msg (s.off + 1) (s.off + 1 + c)
      let wire = s.wire ++ (c ∷ label)
      let canonical = s.canonical ++ (c ∷ map fold_case label)
      let off = s.off + (1 + c)
      if c == 0
          then ok (
              done (record {
                wire = wire;
                canonical = canonical;
                end = set_end s.end off;
                compressed = s.compressed;
              }))
          else ok (
              more (record {
                off = off;
                visited = s.visited;
                end = s.end;
                wire = wire;
                canonical = canonical;
                compressed = s.compressed;
              })))

unfoldable pub decode_step : List ℕ → Decoder → Result WireError (Round Decoder Name)
unfolding decode_pointer decode_label
decode_step msg s = if leb (length msg) s.off then err bounds else (do
  c ← at msg s.off
  if top_bits c == 3
      then decode_pointer msg c s
      else if top_bits c == 0
      then decode_label msg c s
      else err label_encoding)

abbrev pub start_at : ℕ → Decoder
start_at off = record {
  off = off;
  visited = [];
  end = none;
  wire = [];
  canonical = [];
  compressed = false;
}

-- Every round follows one of 32 pointers or adds a byte to a name of at most 255.
abbrev pub decode_fuel : ℕ
decode_fuel = 288

unfoldable pub decode_name : List ℕ → ℕ → Result WireError Name
decode_name msg off =
    if ltb max_message_len (length msg)
    then err bounds
    else loop decode_fuel (decode_step msg) (start_at off)
