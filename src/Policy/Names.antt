-- ===== src/Policy/Names.antt =====
-- internal/policy/normalize.go: `Name` as its wire bytes without the root, `NameFromWire`,
-- `labels`, `CopyWire` and `Display`.
pub mod RoundTrip
use dimsum.Prelude.{
  ℕ, ◌+◌, ◌/◌, ◌%◌, ◌&&◌, ◌||◌, Option, none, some, List, [], ◌∷◌, ◌++◌, map, ltb, leb, ◌==◌,
  if◌then◌else◌, length, Result, ok, err, ◌>>=◌, ◌>>◌, Round, done, more, loop,
}
use dimsum.Prelude.Bytes.{slice}
use dimsum.DnsWire.Name.{fold_case}

pub data NameError : Type 0 where
  invalid_length malformed : NameError

-- The loop of `NameFromWire`: the bytes that are left, the bytes before them with A-Z folded. The
-- wire form that it returns leaves the root off. `len(out)` is at most 255, so `rest` shrinks to [].
unfoldable pub fold_step : List ℕ × List ℕ → Result NameError (Round (List ℕ × List ℕ) (List ℕ))
fold_step (front, []) = err malformed
fold_step (front, length_byte ∷ rest) =
    if length_byte == 0
    then (if length rest == 0 then ok (done front) else err malformed)
    else if ltb 63 length_byte || leb (length rest) length_byte
    then err malformed
    else (do
      label ← slice rest 0 length_byte
      left ← slice rest length_byte (length rest)
      ok (more (front ++ (length_byte ∷ map fold_case label), left)))

unfoldable pub name_from_wire : List ℕ → Result NameError (List ℕ)
name_from_wire b =
    if length b == 0 || ltb 255 (length b)
    then err invalid_length
    else loop (length b + 1) fold_step ([], b)

-- One round of `labels`: the labels so far, and the bytes that are left.
unfoldable pub labels_step :
    List (List ℕ) × List ℕ → Result NameError (Round (List (List ℕ) × List ℕ) (List (List ℕ)))
labels_step (found, []) = ok (done found)
labels_step (found, length_byte ∷ rest) = do
  label ← slice rest 0 length_byte
  left ← slice rest length_byte (length rest)
  ok (more (found ++ (label ∷ []), left))

unfoldable pub labels : List ℕ → Result NameError (List (List ℕ))
labels wire = loop (length wire + 1) labels_step ([], wire)

-- `CopyWire`: what is written to the front of a destination of the given size; `none` is 0.
unfoldable pub copy_wire : List ℕ → ℕ → Option (List ℕ)
copy_wire wire size = if ltb size (length wire + 1) then none else some (wire ++ (0 ∷ []))

-- One octet of `Display`: letters, digits, hyphen and underscore stand for themselves, any other
-- octet is a backslash and three decimal digits.
unfoldable pub display_octet : ℕ → List ℕ
display_octet c =
    if (leb b'a' c && leb c b'z') || (leb b'0' c && leb c b'9') || c == b'-' || c == b'_'
    then c ∷ []
    else 92 ∷ (48 + c / 100) ∷ (48 + c / 10 % 10) ∷ (48 + c % 10) ∷ []

unfoldable pub display_label : List ℕ → List ℕ
display_label [] = []
display_label (c ∷ label) = display_octet c ++ display_label label

-- `Display` of a name with these labels: a dot before every label but the first.
unfoldable pub display_labels : List (List ℕ) → List ℕ
display_labels [] = []
display_labels (l ∷ []) = display_label l
display_labels (l ∷ k ∷ ls) = display_label l ++ (b'.' ∷ display_labels (k ∷ ls))
