-- ===== src/Policy/Matcher/Suffix.antt =====
-- The suffix and wildcard forms in terms of labels.
use dimsum.Prelude.{
  take-append-drop, ℕ, zero, suc, ◌+◌, ◌-◌, ◌≤◌, ◌<◌, ◌≡◌, refl, sym, ap, ◌∙◌, ◌↔◌, ◌⊎◌, true,
  false, ◌&&◌, ◌||◌, List, [], ◌∷◌, ◌++◌, arith, ltb, ◌==◌, if◌then◌else◌, length, get_or, take,
  drop, length-append, length-take, drop-append,
}
use dimsum.Prelude.Bytes.{bytes_eq, bytes_eq_iff}
use mathlib.Core.Path.{ap₂}
use dimsum.Policy.Rules.{CompiledRule}
use dimsum.Policy.Matcher.{agree_from, is_wildcard, matches_suffix}

abbrev Names : Type 0
Names = List (List ℕ)

drop_one : (xs : Names) (i : ℕ) → i < length xs → drop i xs ≡ get_or xs i [] ∷ drop (i + 1) xs
drop_one [] i h = absurd (omega arith)
drop_one (x ∷ xs) zero h = refl
drop_one (x ∷ xs) (suc i) h =
    let e : suc i + 1 ≡ suc (i + 1) = omega arith in rw e (drop_one xs i (omega arith))

drop_all : (xs : Names) (i : ℕ) → length xs ≤ i → drop i xs ≡ []
drop_all [] zero h = refl
drop_all [] (suc i) h = refl
drop_all (x ∷ xs) zero h = absurd (omega arith)
drop_all (x ∷ xs) (suc i) h = drop_all xs i (omega arith)

agree_sound :
    (labels : Names) (i : ℕ) (ls : Names)
    → i + length ls ≡ length labels
    → agree_from labels i ls ≡ true
    → drop i labels ≡ ls
unfolding agree_from
agree_sound labels i [] e h = drop_all labels i (omega arith)
agree_sound labels i (l ∷ ls) e h =
    drop_one labels i (omega arith)
    ∙ ap₂ ◌∷◌ ((bytes_eq_iff (get_or labels i []) l).0 (ground arith))
        (agree_sound labels (i + 1) ls (omega arith) (ground arith))

agree_complete :
    (labels : Names) (i : ℕ) (ls : Names)
    → i + length ls ≡ length labels
    → drop i labels ≡ ls
    → agree_from labels i ls ≡ true
unfolding agree_from
agree_complete labels i [] e h = refl
agree_complete labels i (l ∷ ls) e h =
    let both : get_or labels i [] ∷ drop (i + 1) labels ≡ l ∷ ls =
      sym (drop_one labels i (omega arith)) ∙ h in
    let same : bytes_eq (get_or labels i []) l ≡ true =
      (bytes_eq_iff (get_or labels i []) l).1 (cc) in
    rw same (agree_complete labels (i + 1) ls (omega arith) (cc))

drop_front : (front back : Names) (k : ℕ) → k ≡ length front → drop k (front ++ back) ≡ back
drop_front front back k e = rw e (drop-append front back)

-- A suffix rule matches exactly the names whose labels end in the rule's labels; a wildcard rule
-- those with at least one label more in front.
pub matches_suffix_iff :
    (r : CompiledRule) (labels : List (List ℕ))
    → (matches_suffix r labels ≡ true) ↔ (
        (front : List (List ℕ)) × (labels ≡ front ++ r.labels)
        × ((is_wildcard r.kind ≡ false) ⊎ (0 < length front)))
unfolding matches_suffix
matches_suffix_iff r labels = (to, from)
  where
    n : ℕ
    n = length labels

    k : ℕ
    k = length r.labels

    to :
        (if ltb n k || (is_wildcard r.kind && n == k)
            then false
            else agree_from labels (n - k) r.labels)
          ≡ true
        → (front : List (List ℕ)) × (labels ≡ front ++ r.labels)
          × ((is_wildcard r.kind ≡ false) ⊎ (0 < length front))
    to h =
        let le : k ≤ n = ground arith in
        let agrees : agree_from labels (n - k) r.labels ≡ true = ground arith in
        let cut : drop (n - k) labels ≡ r.labels =
          agree_sound labels (n - k) r.labels (omega arith) agrees in
        let m : length (take (n - k) labels) ≡ n - k = omega (arith, length-take (n - k) labels) in
        (
          take (n - k) labels,
          sym (take-append-drop (n - k) labels) ∙ ap (λ t. take (n - k) labels ++ t) cut,
          ground (arith, m),
        )

    from :
        (front : List (List ℕ)) × (labels ≡ front ++ r.labels)
          × ((is_wildcard r.kind ≡ false) ⊎ (0 < length front))
        → (if ltb n k || (is_wildcard r.kind && n == k)
            then false
            else agree_from labels (n - k) r.labels)
          ≡ true
    from (front, e, w) =
        let len : n ≡ length front + k = ap length e ∙ length-append front r.labels in
        let cut : drop (n - k) labels ≡ r.labels =
          ap (drop (n - k)) e ∙ drop_front front r.labels (n - k) (omega arith) in
        ground (arith, w, len, agree_complete labels (n - k) r.labels (omega arith) cut)
