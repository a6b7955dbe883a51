-- ===== src/Policy/Names/RoundTrip.antt =====
-- Wire names and their labels, both ways.
use dimsum.Prelude.{
  take-append-drop, ℕ, zero, suc, ◌+◌, ◌-◌, ◌≤◌, ◌<◌, ◌≡◌, refl, sym, ap, ◌∙◌, true, false, ◌||◌,
  List, [], ◌∷◌, ◌++◌, map, append-nil, append_assoc, arith, ltb, leb, ◌==◌, le→ltb, length, drop,
  All, length-append, length-drop, length-map, drop-append, take_whole, ok, Returns, Returns-if,
  Returns-weaken, Round, more, loop, loop-more, loop-done, Extends, loop-history,
}
use dimsum.Prelude.Bytes.{IsByte, slice, slice_lem, span, span-IsByte, length-span, span-append}
use dimsum.DnsWire.Labels.{IsLabel, wire_of}
use dimsum.DnsWire.Name.{fold_case}
use dimsum.Policy.Names.{NameError, fold_step, name_from_wire, labels_step, labels}

slice_front :
    {E : Type 0} (label left : List ℕ)
    → (slice {E = E} (label ++ left) 0 (length label) ≡ ok label)
      × (slice {E = E} (label ++ left) (length label) (length (label ++ left)) ≡ ok left)
slice_front label left = (
  slice_lem (label ++ left) 0 (length label) (omega arith) (omega (arith, length-append label left))
      ∙ ap ok (span-append [] label left 0 (length label) refl (omega arith)),
  slice_lem (label ++ left) (length label) (length (label ++ left))
        (omega (arith, length-append label left)) (omega arith)
      ∙ ap ok (
          rw (drop-append label left)
            (take_whole _ left (omega (arith, length-append label left)))),
)

label_step :
    (l : List ℕ) (ls found : List (List ℕ))
    → labels_step (found, wire_of (l ∷ ls)) ≡ ok (more (found ++ (l ∷ []), wire_of ls))
unfolding labels_step
label_step l ls found =
    let cut = slice_front {E = NameError} l (wire_of ls) in rw (cut.0, cut.1) refl

labels_round :
    (ls found : List (List ℕ)) (fuel : ℕ)
    → length ls < fuel
    → loop fuel labels_step (found, wire_of ls) ≡ ok (found ++ ls)
labels_round ls found zero h = absurd (omega arith)
labels_round [] found (suc fuel) h =
    loop-done fuel labels_step (found, []) found (unfold labels_step in refl)
    ∙ ap ok (sym (append-nil found))
labels_round (l ∷ ls) found (suc fuel) h =
    loop-more fuel labels_step (found, wire_of (l ∷ ls)) (found ++ (l ∷ []), wire_of ls)
      (label_step l ls found)
    ∙ labels_round ls (found ++ (l ∷ [])) fuel (omega arith)
    ∙ ap ok (append_assoc found (l ∷ []) ls)

labels-le-wire : (ls : List (List ℕ)) → length ls ≤ length (wire_of ls)
labels-le-wire [] = omega arith
labels-le-wire (l ∷ ls) = omega (arith, labels-le-wire ls, length-append l (wire_of ls))

-- `labels` reads back the labels of every name that is written from labels.
pub labels-wire_of : (ls : List (List ℕ)) → labels (wire_of ls) ≡ ok ls
unfolding labels
labels-wire_of ls = labels_round ls [] (length (wire_of ls) + 1) (omega (arith, labels-le-wire ls))

-- The labels of a name with A-Z folded.
abbrev pub folded : List (List ℕ) → List (List ℕ)
folded = map (map fold_case)

fold_one :
    (front l : List ℕ) (ls : List (List ℕ))
    → IsLabel l
    → fold_step (front, wire_of (l ∷ ls) ++ (0 ∷ []))
      ≡ ok (more (front ++ (length l ∷ map fold_case l), wire_of ls ++ (0 ∷ [])))
unfolding fold_step
fold_one front l ls h =
    let tail = wire_of ls ++ (0 ∷ []) in
    let cut = slice_front {E = NameError} l tail in
    let e : (l ++ wire_of ls) ++ (0 ∷ []) ≡ l ++ tail = append_assoc l (wire_of ls) (0 ∷ []) in
    let n : length tail ≡ length (wire_of ls) + 1 = length-append (wire_of ls) (0 ∷ []) in
    rw e (ground (arith, cut.0, cut.1, n, length-append l tail))

fold_loop :
    (ls : List (List ℕ)) (front : List ℕ) (fuel : ℕ)
    → All IsLabel ls
    → length ls < fuel
    → loop fuel fold_step (front, wire_of ls ++ (0 ∷ [])) ≡ ok (front ++ wire_of (folded ls))
fold_loop ls front zero h k = absurd (omega arith)
fold_loop [] front (suc fuel) h k =
    loop-done fuel fold_step (front, 0 ∷ []) front (unfold fold_step in refl)
    ∙ ap ok (sym (append-nil front))
fold_loop (l ∷ ls) front (suc fuel) h k =
    loop-more fuel fold_step (front, wire_of (l ∷ ls) ++ (0 ∷ []))
      (front ++ (length l ∷ map fold_case l), wire_of ls ++ (0 ∷ [])) (fold_one front l ls h.0)
    ∙ fold_loop ls (front ++ (length l ∷ map fold_case l)) fuel h.1 (omega arith)
    ∙ ap ok (
        append_assoc front (length l ∷ map fold_case l) (wire_of (folded ls))
        ∙ ap (λ n. front ++ (n ∷ (map fold_case l ++ wire_of (folded ls))))
            (sym (length-map l fold_case)))

-- `NameFromWire` accepts every list of labels of 1 to 63 octets that is written with its root in at
-- most 255 bytes, and returns the wire form of the same labels with A-Z folded.
pub name_from_wire-wire_of :
    (ls : List (List ℕ))
    → All IsLabel ls
    → length (wire_of ls) ≤ 254
    → name_from_wire (wire_of ls ++ (0 ∷ [])) ≡ ok (wire_of (folded ls))
unfolding name_from_wire
name_from_wire-wire_of ls h short =
    let n : length (wire_of ls ++ (0 ∷ [])) ≡ length (wire_of ls) + 1 =
      length-append (wire_of ls) (0 ∷ []) in
    rw (n, lt→eqb (length (wire_of ls)), le→ltb 255 (length (wire_of ls) + 1) (omega arith))
      (fold_loop ls [] (length (wire_of ls) + 1 + 1) h (omega (arith, labels-le-wire ls)))
  where
    lt→eqb : (k : ℕ) → (k + 1 == 0) ≡ false
    lt→eqb k = ground arith

-- What `NameFromWire` promises of its input.
abbrev pub Spells : List ℕ → List ℕ → Type 0
Spells b n =
    (ls : List (List ℕ)) × All IsLabel ls × (b ≡ wire_of ls ++ (0 ∷ [])) × (n ≡ wire_of (folded ls))

-- What the loop owes from a state on.
abbrev Folds : List ℕ × List ℕ → List ℕ → Type 0
Folds (front, rest) n =
    (ls : List (List ℕ)) × All IsLabel ls
    × (rest ≡ wire_of ls ++ (0 ∷ []))
    × (n ≡ front ++ wire_of (folded ls))

nil_of_length : (xs : List ℕ) → length xs ≡ 0 → xs ≡ []
nil_of_length [] h = refl
nil_of_length (x ∷ xs) h = absurd (omega arith)

abbrev FoldPromise : List ℕ × List ℕ → Round (List ℕ × List ℕ) (List ℕ) → Type 0
FoldPromise = Extends (λ s. All IsByte s.1) (λ s. length s.1) Folds

fold_round :
    (front rest : List ℕ)
    → All IsByte rest
    → Returns (FoldPromise (front, rest)) (fold_step (front, rest))
unfolding fold_step
fold_round front [] h = tt
fold_round front (c ∷ rest) h =
    let P = FoldPromise (front, c ∷ rest) in
    Returns-if P (c == 0) _ _
      (λ root.
        Returns-if P (length rest == 0) _ _
          (λ last. (
            [],
            tt,
            cc (nil_of_length rest (ground arith), zero_byte root),
            sym (append-nil front),
          ))
          (λ _. tt))
      (λ more_left.
        Returns-if P (ltb 63 c || leb (length rest) c) _ _ (λ _. tt)
          λ fits.
            let low : c < 64 = ground arith in
            let inside : c ≤ length rest = ground arith in
            let pos : 0 < c = ground arith in
            rw
              (
                slice_lem rest 0 c (omega arith) inside,
                slice_lem rest c (length rest) inside (omega arith),
              )
              (let l = span rest 0 c in
                let left = span rest c (length rest) in
                let n : length l ≡ c = omega (arith, length-span rest 0 c (omega arith) inside) in
                let m : length left ≡ length rest - c =
                  length-span rest c (length rest) inside (omega arith) in
                let whole : rest ≡ l ++ left = sym (back rest c inside) in
                (
                  span-IsByte rest c (length rest) h.1,
                  omega arith,
                  λ name k. (
                    l ∷ k.0,
                    ((omega arith, omega arith, span-IsByte rest 0 c h.1), k.1),
                    ap (◌∷◌ c) (
                          whole
                          ∙ ap (λ t. l ++ t) k.2
                          ∙ sym (append_assoc l (wire_of k.0) (0 ∷ [])))
                        ∙ ap (λ t. t ∷ ((l ++ wire_of k.0) ++ (0 ∷ []))) (sym n),
                    k.3
                        ∙ append_assoc front (c ∷ map fold_case l) (wire_of (folded k.0))
                        ∙ ap (λ t. front ++ (t ∷ (map fold_case l ++ wire_of (folded k.0))))
                            (sym (length-map l fold_case ∙ n)),
                  ),
                )))
  where
    zero_byte : (c == 0) ≡ true → c ≡ 0
    zero_byte e = ground arith

    back : (xs : List ℕ) (k : ℕ) → k ≤ length xs → span xs 0 k ++ span xs k (length xs) ≡ xs
    back xs k le =
        let e : k - 0 ≡ k = omega arith in
        rw (e, take_whole (length xs - k) (drop k xs) (omega (arith, length-drop k xs)))
          (take-append-drop k xs)

-- `NameFromWire` on any bytes ends, and accepts nothing else: what it accepts is a list of labels of
-- 1 to 63 octets with the root, and what it returns is the wire form of these labels with A-Z folded.
pub name_from_wire-Spells : (b : List ℕ) → All IsByte b → Returns (Spells b) (name_from_wire b)
unfolding name_from_wire
name_from_wire-Spells b bytes =
    Returns-if (Spells b) (length b == 0 || ltb 255 (length b)) _ _ (λ _. tt)
      λ _.
        Returns-weaken (Folds ([], b)) (Spells b) (loop (length b + 1) fold_step ([], b))
          (loop-history (λ s. All IsByte s.1) (λ s. length s.1) Folds fold_step
            (λ s h. fold_round s.0 s.1 h) (length b + 1) ([], b) (omega arith) bytes)
          (λ n k. k)
