-- ===== src/DnsWire/Name/Safety.antt =====
-- `DecodeName` on any message: no index out of range, no endless chain, a well-formed name.
use dimsum.Prelude.{
  ltb→le, not, ◌&&◌, ◌||◌, Returns-if, ℕ, ◌+◌, ◌-◌, ◌*◌, ◌%◌, ◌≤◌, ◌<◌, ◌≡◌, refl, ◌∙◌, List, [],
  ◌∷◌, ◌++◌, map, append-nil, arith, ltb, leb, ◌==◌, length, length-append, All, All-append,
  Returns, Round, loop-Returns, Progress,
}
use mathlib.Core.List.{map-append}
use dimsum.Prelude.Bytes.{
  IsByte, byte, at-byte, byte-IsByte, slice_lem, span, span-IsByte, length-span,
}
use dimsum.DnsWire.Errors.{max_message_len, max_pointers, max_name_len}
use dimsum.DnsWire.Labels.{IsLabel, wire_of, wire_of-append}
use dimsum.DnsWire.Name.{
  decode_fuel, Name, Decoder, top_bits, fold_case, contains, set_end, decode_pointer, decode_label,
  decode_step, start_at, decode_name,
}

-- What a decoded name promises to its readers.
pub record IsDecoded (msg : List ℕ) (off : ℕ) (name : Name) : Type 0 where
  pub labels : List (List ℕ)
  pub valid : All IsLabel labels
  pub spells : name.wire ≡ wire_of labels ++ (0 ∷ [])
  pub short : length name.wire ≤ 255
  pub folded : name.canonical ≡ map fold_case name.wire
  pub forward : off < name.end
  pub inside : name.end ≤ length msg

-- The invariant of the loop.
record IsDecoding (msg : List ℕ) (start : ℕ) (s : Decoder) : Type 0 where
  labels : List (List ℕ)
  valid : All IsLabel labels
  spells : s.wire ≡ wire_of labels
  short : length s.wire ≤ 254
  folded : s.canonical ≡ map fold_case s.wire
  few : length s.visited ≤ 32
  forward : start < set_end s.end (s.off + 1)
  inside : set_end s.end 0 ≤ length msg

abbrev measure : Decoder → ℕ
measure s = (32 - length s.visited) + (255 - length s.wire)

pub length_byte : (c : ℕ) → c < 64 → fold_case c ≡ c
length_byte c h = ground arith

-- `canonical` stays the folded copy of `wire`, since a length byte below 64 is no letter.
folded_label :
    (wire canonical label : List ℕ) (c : ℕ)
    → c < 64
    → canonical ≡ map fold_case wire
    → canonical ++ (c ∷ map fold_case label) ≡ map fold_case (wire ++ (c ∷ label))
folded_label wire canonical label c h e =
    rw (map-append fold_case wire (c ∷ label), e, length_byte c h)

module _ (msg : List ℕ) (start : ℕ) (s : Decoder) (h : IsDecoding msg start s)
    (label : List ℕ) where
  last_label :
      (c : ℕ)
      → c ≡ 0
      → length label ≡ c
      → length s.wire + 1 + c ≤ 255
      → s.off + (1 + c) ≤ length msg
      → IsDecoded msg start (record {
        wire = s.wire ++ (c ∷ label);
        canonical = s.canonical ++ (c ∷ map fold_case label);
        end = set_end s.end (s.off + (1 + c));
        compressed = s.compressed;
      })
  last_label c z e room fits = record {
    labels = h.labels;
    valid = h.valid;
    spells = cc (h.spells, empty label (e ∙ z));
    short = omega (arith, length-append s.wire (c ∷ label));
    folded = folded_label s.wire s.canonical label c (omega arith) h.folded;
    forward = ground (arith, h.forward);
    inside = ground (arith, h.inside);
  }
    where
      empty : (l : List ℕ) → length l ≡ 0 → l ≡ []
      empty [] q = refl
      empty (x ∷ xs) q = absurd (omega arith)

  next_label :
      (c : ℕ)
      → 0 < c
      → c < 64
      → length label ≡ c
      → All IsByte label
      → length s.wire + 1 + c ≤ 254
      → IsDecoding msg start (record s {
        off = s.off + (1 + c);
        wire = s.wire ++ (c ∷ label);
        canonical = s.canonical ++ (c ∷ map fold_case label);
      })
  next_label c pos low e octets room = record {
    labels = h.labels ++ (label ∷ []);
    valid =
        All-append IsLabel h.labels (label ∷ []) h.valid ((omega arith, omega arith, octets), tt);
    spells = rw (wire_of-append h.labels (label ∷ []), append-nil, e, h.spells);
    short = omega (arith, length-append s.wire (c ∷ label));
    folded = folded_label s.wire s.canonical label c low h.folded;
    few = h.few;
    forward = ground (arith, h.forward);
    inside = h.inside;
  }

module _ (msg : List ℕ) (start : ℕ) (bytes : All IsByte msg) where
  abbrev Promise : Decoder → Round Decoder Name → Type 0
  Promise = Progress (IsDecoding msg start) measure (IsDecoded msg start)

  pointer_round :
      (c : ℕ) (s : Decoder) → IsDecoding msg start s → Returns (Promise s) (decode_pointer msg c s)
  unfolding decode_pointer
  pointer_round c s h =
      Returns-if (Promise s) (leb (length msg) (s.off + 1)) _ _ (λ _. tt)
        λ inside. rw (at-byte msg (s.off + 1) (ground arith)) (
          let target = c % 64 * 256 + byte msg (s.off + 1) in
          Returns-if (Promise s) (leb s.off target || length s.visited == max_pointers) _ _
            (λ _. tt)
            λ fits.
              Returns-if (Promise s) (contains s.visited s.off) _ _ (λ _. tt)
                λ fresh. (
                  record {
                    labels = h.labels;
                    valid = h.valid;
                    spells = h.spells;
                    short = h.short;
                    folded = h.folded;
                    few = ground (arith, length-append s.visited (s.off ∷ []));
                    forward = ground (arith, h.forward);
                    inside = ground (arith, h.inside);
                  },
                  ground (arith, h.few, length-append s.visited (s.off ∷ [])),
                ))

  label_round :
      (c : ℕ) (s : Decoder)
      → IsDecoding msg start s
      → c < 64
      → s.off < length msg
      → Returns (Promise s) (decode_label msg c s)
  unfolding decode_label
  label_round c s h low inside =
      let n = length s.wire in
      Returns-if (Promise s) (ltb (length msg) (s.off + 1 + c)) _ _ (λ _. tt)
        λ fits.
          Returns-if (Promise s)
            (ltb max_name_len (n + 1 + c) || (not (c == 0) && n + 1 + c == max_name_len)) _ _
            (λ _. tt)
            λ room. rw (slice_lem msg (s.off + 1) (s.off + 1 + c) (omega arith) (ground arith)) (
              let label = span msg (s.off + 1) (s.off + 1 + c) in
              let e : length label ≡ c = omega (
                arith,
                length-span msg (s.off + 1) (s.off + 1 + c),
                ltb→le (length msg) (s.off + 1 + c) fits,
              ) in
              Returns-if (Promise s) (c == 0) _ _
                (λ last.
                  last_label msg start s h label c (ground arith) e (ground arith) (ground arith))
                (λ next. (
                  next_label msg start s h label c (ground arith) low e
                      (span-IsByte msg (s.off + 1) (s.off + 1 + c) bytes) (ground arith),
                  ground (arith, h.few, length-append s.wire (c ∷ label)),
                )))

  decode_round : (s : Decoder) → IsDecoding msg start s → Returns (Promise s) (decode_step msg s)
  unfolding decode_step
  decode_round s h =
      Returns-if (Promise s) (leb (length msg) s.off) _ _ (λ _. tt)
        λ inside. rw (at-byte msg s.off (ground arith)) (
          let c = byte msg s.off in
          Returns-if (Promise s) (top_bits c == 3) _ _ (λ _. pointer_round c s h)
            λ _.
              Returns-if (Promise s) (top_bits c == 0) _ _
                (λ low.
                  label_round c s h (ground (arith, byte-IsByte msg s.off bytes)) (ground arith))
                (λ _. tt))

-- On a message of bytes `DecodeName` ends with a name or an error: it reads no byte out of range,
-- follows no endless chain of pointers and needs no more rounds than the model's fuel. A name that
-- it returns spells a list of labels of 1 to 63 octets and the root in at most 255 octets, its
-- canonical form is its wire form with A-Z folded, and `End` lies
-- behind the offset and inside the message.
pub decode_name-IsDecoded :
    (msg : List ℕ) (off : ℕ) → All IsByte msg → Returns (IsDecoded msg off) (decode_name msg off)
unfolding decode_name
decode_name-IsDecoded msg off bytes =
    Returns-if (IsDecoded msg off) (ltb max_message_len (length msg)) _ _ (λ _. tt)
      λ _.
        loop-Returns (IsDecoding msg off) measure (IsDecoded msg off) (decode_step msg)
          (λ s h. decode_round msg off bytes s h) decode_fuel (start_at off) (omega arith)
          (record {
            labels = [];
            valid = tt;
            spells = refl;
            short = omega arith;
            folded = refl;
            few = omega arith;
            forward = omega arith;
            inside = omega arith;
          })
