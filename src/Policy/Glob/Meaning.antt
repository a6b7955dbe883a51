-- ===== src/Policy/Glob/Meaning.antt =====
-- The dynamic program decides what a glob means.
use dimsum.Prelude.{
  ℕ, ◌≡◌, refl, sym, ap, ◌∙◌, subst, ◌≢◌, ◌↔◌, inl, inr, Bool, true, false, ◌&&◌, ◌||◌, List, [],
  ◌∷◌, ◌++◌, arith, ◌==◌, if◌then◌else◌, Bool-cases, length, get_or, replicate,
}
use mathlib.Core.Path.{subst₂}
use mathlib.Core.List.{reverse, reverse_aux, reverse-reverse, reverse-append, reverse-cons}
use dimsum.Policy.Glob.{glob_row, glob_next, glob_rows, label_glob}

-- `*` stands for any run of octets, `?` for one octet, any other octet for itself.
pub data Matches : List ℕ → List ℕ → Type 0 where
  empty : Matches [] []
  star_none : {p : ℕ} {ps l : List ℕ} → p ≡ b'*' → Matches ps l → Matches (p ∷ ps) l
  star_more : {p c : ℕ} {ps l : List ℕ} → p ≡ b'*' → Matches (p ∷ ps) l → Matches (p ∷ ps) (c ∷ l)
  any : {p c : ℕ} {ps l : List ℕ} → p ≡ b'?' → Matches ps l → Matches (p ∷ ps) (c ∷ l)
  literal :
      {p c : ℕ} {ps l : List ℕ}
      → p ≢ b'*'
      → p ≢ b'?'
      → p ≡ c
      → Matches ps l
      → Matches (p ∷ ps) (c ∷ l)

-- The recurrence of the program, over the reversed prefixes of the pattern and of the label.
decides : List ℕ → List ℕ → Bool
decides [] [] = true
decides [] (c ∷ l) = false
decides (p ∷ ps) [] = p == b'*' && decides ps []
decides (p ∷ ps) (c ∷ l) =
    if p == b'*'
    then decides ps (c ∷ l) || decides (p ∷ ps) l
    else if p == b'?'
    then decides ps l
    else decides ps l && p == c

-- The entries of a row behind the prefix `seen`.
row_tail : List ℕ → List ℕ → List ℕ → List Bool
row_tail ps seen [] = []
row_tail ps seen (c ∷ l) = decides ps (c ∷ seen) ∷ row_tail ps (c ∷ seen) l

glob_row-row_tail :
    (p : ℕ) (ps seen l : List ℕ)
    → glob_row p (decides ps seen) (decides (p ∷ ps) seen) (row_tail ps seen l) l
      ≡ row_tail (p ∷ ps) seen l
unfolding glob_row row_tail decides
glob_row-row_tail p ps seen [] = refl
glob_row-row_tail p ps seen (c ∷ l) =
    ap (◌∷◌ (decides (p ∷ ps) (c ∷ seen))) (glob_row-row_tail p ps (c ∷ seen) l)

abbrev row : List ℕ → List ℕ → List Bool
row ps l = decides ps [] ∷ row_tail ps [] l

glob_rows-row :
    (pattern ps l : List ℕ) → glob_rows pattern (row ps l) l ≡ row (reverse_aux pattern ps) l
unfolding glob_rows glob_next decides
glob_rows-row [] ps l = refl
glob_rows-row (p ∷ pattern) ps l =
    ap (λ r. glob_rows pattern ((p == b'*' && decides ps []) ∷ r) l) (tail_eq p ps l)
    ∙ glob_rows-row pattern (p ∷ ps) l
  where
    tail_eq :
        (p : ℕ) (ps l : List ℕ)
        → glob_row p (decides ps []) (p == b'*' && decides ps []) (row_tail ps [] l) l
          ≡ row_tail (p ∷ ps) [] l
    tail_eq p ps l = unfold decides in glob_row-row_tail p ps [] l

last_entry :
    (ps seen l : List ℕ)
    → get_or (decides ps seen ∷ row_tail ps seen l) (length l) false
      ≡ decides ps (reverse_aux l seen)
unfolding row_tail
last_entry ps seen [] = refl
last_entry ps seen (c ∷ l) = last_entry ps (c ∷ seen) l

first_tail : (c : ℕ) (seen l : List ℕ) → row_tail [] seen l ≡ replicate (length l) false
unfolding row_tail decides
first_tail c seen [] = refl
first_tail c seen (d ∷ l) = ap (◌∷◌ false) (first_tail c (d ∷ seen) l)

label_glob-decides :
    (pattern l : List ℕ) → label_glob pattern l ≡ decides (reverse pattern) (reverse l)
unfolding label_glob decides
label_glob-decides pattern l =
    ap (λ t. get_or (glob_rows pattern (true ∷ t) l) (length l) false) (sym (first_tail 0 [] l))
    ∙ ap (λ r. get_or r (length l) false) (glob_rows-row pattern [] l)
    ∙ last_entry (reverse pattern) [] l

decides_sound : (ps l : List ℕ) → decides ps l ≡ true → Matches ps l
unfolding decides
decides_sound [] [] h = empty
decides_sound [] (c ∷ l) h = absurd (false_true h)
  where
    false_true : false ≡ true → ⊥
    false_true e = cc
decides_sound (p ∷ ps) [] h = star_none (ground arith) (decides_sound ps [] (ground arith))
decides_sound (p ∷ ps) (c ∷ l) h = elim (Bool-cases (p == b'*')) [
  | inl star ↦ elim (Bool-cases (decides ps (c ∷ l))) [
    | inl skip ↦ star_none (ground arith) (decides_sound ps (c ∷ l) skip)
    | inr stay ↦
        star_more (ground arith) (decides_sound (p ∷ ps) l (unfold decides in ground arith))
  ]
  | inr other ↦ elim (Bool-cases (p == b'?')) [
    | inl one ↦ any (ground arith) (decides_sound ps l (ground arith))
    | inr plain ↦
        literal (λ e. absurd (ground arith)) (λ e. absurd (ground arith)) (ground arith)
          (decides_sound ps l (ground arith))
  ]
]

decides_complete : {ps l : List ℕ} → Matches ps l → decides ps l ≡ true
unfolding decides
decides_complete empty = refl
decides_complete (star_none {l = []} e m) = ground (arith, decides_complete m)
decides_complete (star_none {l = c ∷ l} e m) = ground (arith, decides_complete m)
decides_complete (star_more e m) = ground (arith, decides_complete m)
decides_complete (any e m) = ground (arith, decides_complete m)
decides_complete (literal n k e m) = ground (arith, decides_complete m)

Matches-append : {ps l qs m : List ℕ} → Matches ps l → Matches qs m → Matches (ps ++ qs) (l ++ m)
Matches-append empty k = k
Matches-append (star_none e h) k = star_none e (Matches-append h k)
Matches-append (star_more e h) k = star_more e (Matches-append h k)
Matches-append (any e h) k = any e (Matches-append h k)
Matches-append (literal n o e h) k = literal n o e (Matches-append h k)

star_run : {p : ℕ} (l : List ℕ) → p ≡ b'*' → Matches (p ∷ []) l
star_run [] e = star_none e empty
star_run (c ∷ l) e = star_more e (star_run l e)

-- How the first sign of a pattern is used: on a front of the label.
front :
    {p : ℕ} {ps l : List ℕ}
    → Matches (p ∷ ps) l
    → (used : List ℕ) × (rest : List ℕ) × (l ≡ used ++ rest)
      × Matches ps rest
      × Matches (p ∷ []) (reverse used)
front {l = l} (star_none e h) = ([], l, refl, h, star_none e empty)
front (star_more {c = c} e h) =
    let (used, rest, cut, m, _) = front h in
    (c ∷ used, rest, ap (◌∷◌ c) cut, m, star_run (reverse (c ∷ used)) e)
front (any {c = c} {l = l} e h) = (c ∷ [], l, refl, h, any e empty)
front (literal {c = c} {l = l} n o e h) = (c ∷ [], l, refl, h, literal n o e empty)

front_nil : {l : List ℕ} → Matches [] l → l ≡ []
front_nil empty = refl

Matches-reverse : (ps l : List ℕ) → Matches ps l → Matches (reverse ps) (reverse l)
Matches-reverse [] l h = subst (λ t. Matches [] (reverse t)) (sym (front_nil h)) empty
Matches-reverse (p ∷ ps) l h =
    let (used, rest, cut, m, one) = front h in
    subst (λ t. Matches t (reverse l)) (sym (reverse-cons p ps))
      (subst (λ t. Matches (reverse ps ++ (p ∷ [])) t)
        (sym (ap reverse cut ∙ reverse-append used rest))
        (Matches-append (Matches-reverse ps rest m) one))

-- `labelGlob` answers true exactly when the label matches the pattern, where `*` stands for any run
-- of octets, `?` for any one octet and every other octet for itself.
pub label_glob_iff : (pattern l : List ℕ) → (label_glob pattern l ≡ true) ↔ Matches pattern l
label_glob_iff pattern l = (
  λ h. subst₂ Matches (reverse-reverse pattern) (reverse-reverse l) (
      Matches-reverse (reverse pattern) (reverse l)
        (decides_sound (reverse pattern) (reverse l) (sym (label_glob-decides pattern l) ∙ h))),
  λ m. label_glob-decides pattern l ∙ decides_complete (Matches-reverse pattern l m),
)
