-- ===== src/DnsWire/Name/Plain.antt =====
-- `DecodeName` on an uncompressed name: it reads back what `wire_of` writes.
use dimsum.Prelude.{
  ℕ, zero, suc, ◌+◌, ◌≤◌, ◌<◌, ◌≡◌, refl, sym, ap, ◌∙◌, subst, false, List, [], ◌∷◌, ◌++◌, map,
  append_assoc, arith, le→ltb, length, All, length-append, ok, done, more, loop, loop-more,
  loop-done,
}
use dimsum.Prelude.Bytes.{byte, slice_lem, at-byte, span, byte-append, span-append}
use mathlib.Core.List.{map-append}
use dimsum.DnsWire.Errors.{WireError}
use dimsum.DnsWire.Name.Safety.{length_byte}
use dimsum.DnsWire.Labels.{IsLabel, wire_of}
use dimsum.DnsWire.Name.{
  Name, Decoder, fold_case, set_end, decode_step, start_at, decode_name, decode_fuel,
}

-- One round on a label that stands at the offset.
label_step :
    (msg : List ℕ) (s : Decoder) (label : List ℕ)
    → s.off + 1 + length label ≤ length msg
    → byte msg s.off ≡ length label
    → span msg (s.off + 1) (s.off + 1 + length label) ≡ label
    → IsLabel label
    → length s.wire + 1 + length label ≤ 254
    → decode_step msg s
      ≡ ok (
          more (record s {
            off = s.off + (1 + length label);
            wire = s.wire ++ (length label ∷ label);
            canonical = s.canonical ++ (length label ∷ map fold_case label);
          }))
unfolding decode_step
label_step msg s label fits head body l room = ground (
  arith,
  at-byte {E = WireError} msg s.off,
  slice_lem {E = WireError} msg (s.off + 1) (s.off + 1 + length label),
)

root_step :
    (msg : List ℕ) (s : Decoder)
    → s.off + 1 ≤ length msg
    → byte msg s.off ≡ 0
    → length s.wire ≤ 254
    → decode_step msg s
      ≡ ok (
          done (record {
            wire = s.wire ++ (0 ∷ []);
            canonical = s.canonical ++ (0 ∷ []);
            end = set_end s.end (s.off + 1);
            compressed = s.compressed;
          }))
unfolding decode_step
root_step msg s fits head room = ground (
  arith,
  at-byte {E = WireError} msg s.off,
  slice_lem {E = WireError} msg (s.off + 1) (s.off + 1 + 0),
)

-- The name that the loop ends with when the labels `ls` and the root stand at its offset.
abbrev plain_end : Decoder → List (List ℕ) → Name
plain_end s ls = record {
  wire = s.wire ++ (wire_of ls ++ (0 ∷ []));
  canonical = s.canonical ++ map fold_case (wire_of ls ++ (0 ∷ []));
  end = set_end s.end (s.off + (length (wire_of ls) + 1));
  compressed = s.compressed;
}

label_at :
    (pre l tail : List ℕ) (s : Decoder)
    → s.off ≡ length pre
    → IsLabel l
    → length s.wire + 1 + length l ≤ 254
    → decode_step (pre ++ (length l ∷ (l ++ tail))) s
      ≡ ok (
          more (record s {
            off = s.off + (1 + length l);
            wire = s.wire ++ (length l ∷ l);
            canonical = s.canonical ++ (length l ∷ map fold_case l);
          }))
label_at pre l tail s here valid room =
    label_step (pre ++ (length l ∷ (l ++ tail))) s l
      (omega (arith, length-append pre (length l ∷ (l ++ tail)), length-append l tail))
      (rw here (byte-append pre (length l) (l ++ tail)))
      (subst (λ m. span m (s.off + 1) (s.off + 1 + length l) ≡ l)
        (append_assoc pre (length l ∷ []) (l ++ tail))
        (span-append (pre ++ (length l ∷ [])) l tail (s.off + 1) (s.off + 1 + length l)
          (omega (arith, length-append pre (length l ∷ [])))
          (omega (arith, length-append pre (length l ∷ [])))))
      valid room

Name-ext :
    (m n : Name)
    → m.wire ≡ n.wire
    → m.canonical ≡ n.canonical
    → m.end ≡ n.end
    → m.compressed ≡ n.compressed
    → m ≡ n
Name-ext m n w c e z = λ i. record { wire = w i; canonical = c i; end = e i; compressed = z i }

plain_end_cons :
    (s : Decoder) (l : List ℕ) (ls : List (List ℕ))
    → length l < 64
    → plain_end
        (record s {
          off = s.off + (1 + length l);
          wire = s.wire ++ (length l ∷ l);
          canonical = s.canonical ++ (length l ∷ map fold_case l);
        })
        ls
      ≡ plain_end s (l ∷ ls)
plain_end_cons s l ls low =
    Name-ext _ _ (simp append_assoc)
      (rw (length_byte (length l) low) (simp (append_assoc, map-append)))
      (ap (set_end s.end) (omega (arith, length-append l (wire_of ls)))) refl

plain_loop :
    (ls : List (List ℕ)) (fuel : ℕ) (pre rest : List ℕ) (s : Decoder)
    → s.off ≡ length pre
    → All IsLabel ls
    → length s.wire + length (wire_of ls) ≤ 254
    → length ls < fuel
    → loop fuel (decode_step (pre ++ (wire_of ls ++ (0 ∷ rest)))) s ≡ ok (plain_end s ls)
plain_loop ls zero pre rest s here valid room enough = absurd (omega arith)
plain_loop [] (suc fuel) pre rest s here valid room enough = loop-done fuel _ s (plain_end s []) (
    root_step (pre ++ (0 ∷ rest)) s (omega (arith, length-append pre (0 ∷ rest)))
      (rw here (byte-append pre 0 rest)) (omega arith))
plain_loop (l ∷ ls) (suc fuel) pre rest s here valid room enough =
    let tail = wire_of ls ++ (0 ∷ rest) in
    let s' : Decoder = record s {
      off = s.off + (1 + length l);
      wire = s.wire ++ (length l ∷ l);
      canonical = s.canonical ++ (length l ∷ map fold_case l);
    } in
    subst (λ t. loop (suc fuel) (decode_step (pre ++ (length l ∷ t))) s ≡ ok (plain_end s (l ∷ ls)))
      (sym (append_assoc l (wire_of ls) (0 ∷ rest)))
      (loop-more fuel _ s s'
          (label_at pre l tail s here valid.0 (omega (arith, length-append l (wire_of ls))))
        ∙ subst (λ m. loop fuel (decode_step m) s' ≡ ok (plain_end s' ls))
            (append_assoc pre (length l ∷ l) tail)
            (plain_loop ls fuel (pre ++ (length l ∷ l)) rest s'
              (omega (arith, length-append pre (length l ∷ l))) valid.1
              (omega (arith, length-append l (wire_of ls), length-append s.wire (length l ∷ l)))
              (omega arith))
        ∙ ap ok (plain_end_cons s l ls valid.0.1))

labels-le-wire : (ls : List (List ℕ)) → length ls ≤ length (wire_of ls)
labels-le-wire [] = omega arith
labels-le-wire (l ∷ ls) = omega (arith, labels-le-wire ls, length-append l (wire_of ls))

-- `DecodeName` reads back any list of labels of 1 to 63 octets that is written uncompressed behind
-- any prefix and before any rest, if the name has at most 255 octets and the message at most 65535:
-- the wire form is what was written, the canonical form its A-Z folding, and `End` follows the root.
pub decode_name-wire_of :
    (pre rest : List ℕ) (ls : List (List ℕ))
    → All IsLabel ls
    → length (wire_of ls) ≤ 254
    → length (pre ++ (wire_of ls ++ (0 ∷ rest))) ≤ 65535
    → decode_name (pre ++ (wire_of ls ++ (0 ∷ rest))) (length pre)
      ≡ ok (record {
        wire = wire_of ls ++ (0 ∷ []);
        canonical = map fold_case (wire_of ls ++ (0 ∷ []));
        end = length pre + (length (wire_of ls) + 1);
        compressed = false;
      })
unfolding decode_name
decode_name-wire_of pre rest ls valid short fits =
    rw (le→ltb 65535 (length (pre ++ (wire_of ls ++ (0 ∷ rest)))) fits) (
      plain_loop ls decode_fuel pre rest (start_at (length pre)) refl valid (omega arith)
        (omega (arith, labels-le-wire ls)))
