-- ===== src/Policy/Matcher/Sorted.antt =====
-- The sorted sources of an explanation, `slices.Compact(slices.Sort(ids))`: a function of the set.
use dimsum.Prelude.{
  ℕ, ◌≡◌, refl, sym, ap, ◌∙◌, ◌⊎◌, inl, inr, true, false, List, [], ◌∷◌, Bool-cases,
}
use dimsum.Prelude.Bytes.{bytes_eq, bytes_eq_iff}
use dimsum.Policy.Rules.{bytes_lt}
use dimsum.Policy.Rules.Order.{bytes_lt_irrefl, bytes_lt_trans, bytes_lt_total, bytes_lt_negtrans}
use dimsum.Policy.Matcher.{insert_sorted, sort, compact}

abbrev pub Has : List ℕ → List (List ℕ) → Type 0
Has x [] = ⊥
Has x (y ∷ ys) = (x ≡ y) ⊎ Has x ys

abbrev pub SameSources : List (List ℕ) → List (List ℕ) → Type 0
SameSources xs ys = (z : List ℕ) → (Has z xs → Has z ys) × (Has z ys → Has z xs)

-- No string is below one before it.
abbrev Ordered : List (List ℕ) → Type 0
Ordered [] = Unit
Ordered (x ∷ xs) = ((z : List ℕ) → Has z xs → bytes_lt z x ≡ false) × Ordered xs

-- Every string is below those behind it.
abbrev Ascends : List (List ℕ) → Type 0
Ascends [] = Unit
Ascends (x ∷ xs) = ((z : List ℕ) → Has z xs → bytes_lt x z ≡ true) × Ascends xs

bytes_lt_asym : (x y : List ℕ) → bytes_lt x y ≡ true → bytes_lt y x ≡ false
bytes_lt_asym x y h = elim (Bool-cases (bytes_lt y x)) [
  | inl k ↦ absurd (cc (bytes_lt_trans x y x h k, bytes_lt_irrefl x))
  | inr k ↦ k
]

swap_front : {A B C : Type 0} → A ⊎ (B ⊎ C) → B ⊎ (A ⊎ C)
swap_front (inl a) = inr (inl a)
swap_front (inr (inl b)) = inl b
swap_front (inr (inr c)) = inr (inr c)

under : {A B C : Type 0} → (B → C) → A ⊎ B → A ⊎ C
under f (inl a) = inl a
under f (inr b) = inr (f b)

insert_sorted-Has : (x : List ℕ) (ys : List (List ℕ)) → SameSources (insert_sorted x ys) (x ∷ ys)
unfolding insert_sorted
insert_sorted-Has x [] z = (λ i. i, λ i. i)
insert_sorted-Has x (y ∷ ys) z = elim (Bool-cases (bytes_lt y x)) [
  | inl e ↦
      let w = insert_sorted-Has x ys z in
      let to : Has z (y ∷ insert_sorted x ys) → Has z (x ∷ y ∷ ys) =
        λ i. let j : Has z (y ∷ x ∷ ys) = under (w.0) i in swap_front j in
      let back : Has z (x ∷ y ∷ ys) → Has z (y ∷ insert_sorted x ys) =
        λ i. let j : Has z (y ∷ x ∷ ys) = swap_front i in under (w.1) j in
      rw e (to, back)
  | inr e ↦ rw e (λ i. i, λ i. i)
]

insert_sorted-Ordered :
    (x : List ℕ) (ys : List (List ℕ)) → Ordered ys → Ordered (insert_sorted x ys)
unfolding insert_sorted
insert_sorted-Ordered x [] h = (λ z i. absurd i, tt)
insert_sorted-Ordered x (y ∷ ys) h = elim (Bool-cases (bytes_lt y x)) [
  | inl e ↦
      rw e (λ z i. above z ((insert_sorted-Has x ys z).0 i) e, insert_sorted-Ordered x ys (h.1))
  | inr e ↦ rw e (λ z i. first z i e, h)
]
  where
    above : (z : List ℕ) → Has z (x ∷ ys) → bytes_lt y x ≡ true → bytes_lt z y ≡ false
    above z (inl e) l = ap (λ t. bytes_lt t y) e ∙ bytes_lt_asym y x l
    above z (inr i) l = h.0 z i

    first : (z : List ℕ) → Has z (y ∷ ys) → bytes_lt y x ≡ false → bytes_lt z x ≡ false
    first z (inl e) l = ap (λ t. bytes_lt t x) e ∙ l
    first z (inr i) l = bytes_lt_negtrans z y x (h.0 z i) l

sort-Has : (xs : List (List ℕ)) → SameSources (sort xs) xs
unfolding sort
sort-Has [] z = (λ i. i, λ i. i)
sort-Has (x ∷ xs) z =
    let v = insert_sorted-Has x (sort xs) z in
    let w = sort-Has xs z in (λ i. under (w.0) (v.0 i), λ i. v.1 (under (w.1) i))

sort-Ordered : (xs : List (List ℕ)) → Ordered (sort xs)
unfolding sort
sort-Ordered [] = tt
sort-Ordered (x ∷ xs) = insert_sorted-Ordered x (sort xs) (sort-Ordered xs)

drop_twin : {A B C D : Type 0} → (A → B) → (B ⊎ C → D) → A ⊎ (B ⊎ C) → D
drop_twin f g (inl a) = g (inl (f a))
drop_twin f g (inr i) = g i

compact-Has : (xs : List (List ℕ)) → SameSources (compact xs) xs
unfolding compact
compact-Has [] z = (λ i. i, λ i. i)
compact-Has (x ∷ []) z = (λ i. i, λ i. i)
compact-Has (x ∷ y ∷ ys) z =
    let w = compact-Has (y ∷ ys) z in
    elim (Bool-cases (bytes_eq x y)) [
      | inl e ↦ rw e (λ i. inr (w.0 i), drop_twin (λ k. k ∙ (bytes_eq_iff x y).0 e) (w.1))
      | inr e ↦ rw e (under (w.0), under (w.1))
    ]

compact-Ascends : (xs : List (List ℕ)) → Ordered xs → Ascends (compact xs)
unfolding compact
compact-Ascends [] h = tt
compact-Ascends (x ∷ []) h = (λ z i. absurd i, tt)
compact-Ascends (x ∷ y ∷ ys) h = elim (Bool-cases (bytes_eq x y)) [
  | inl e ↦ rw e (compact-Ascends (y ∷ ys) (h.1))
  | inr e ↦ rw e (λ z i. above z ((compact-Has (y ∷ ys) z).0 i) e, compact-Ascends (y ∷ ys) (h.1))
]
  where
    not_below : (z : List ℕ) → Has z (y ∷ ys) → bytes_lt z y ≡ false
    not_below z (inl e) = ap (λ t. bytes_lt t y) e ∙ bytes_lt_irrefl y
    not_below z (inr i) = h.1.0 z i

    above : (z : List ℕ) → Has z (y ∷ ys) → bytes_eq x y ≡ false → bytes_lt x z ≡ true
    above z i d = elim (Bool-cases (bytes_lt x z)) [
      | inl l ↦ l
      | inr l ↦
          let same =
            bytes_lt_total x y (bytes_lt_negtrans x z y l (not_below z i)) (h.0 y (inl refl)) in
          absurd (cc ((bytes_eq_iff x y).1 same, d))
    ]

-- Two ascending lists with the same strings are one list.
Ascends-unique : (xs ys : List (List ℕ)) → Ascends xs → Ascends ys → SameSources xs ys → xs ≡ ys
Ascends-unique [] [] h k same = refl
Ascends-unique [] (y ∷ ys) h k same = absurd ((same y).1 (inl refl))
Ascends-unique (x ∷ xs) [] h k same = absurd ((same x).0 (inl refl))
Ascends-unique (x ∷ xs) (y ∷ ys) h k same =
    let e = heads ((same x).0 (inl refl)) ((same y).1 (inl refl)) in
    let rest =
      Ascends-unique xs ys (h.1) (k.1) (λ z.
        (λ i. behind_y z e i ((same z).0 (inr i)), λ i. behind_x z e i ((same z).1 (inr i)))) in
    cc (e, rest)
  where
    heads : Has x (y ∷ ys) → Has y (x ∷ xs) → x ≡ y
    heads (inl e) _ = e
    heads (inr i) (inl e) = sym e
    heads (inr i) (inr j) = absurd (cc (bytes_lt_asym x y (h.0 y j), k.0 x i))

    behind_y : (z : List ℕ) → x ≡ y → Has z xs → Has z (y ∷ ys) → Has z ys
    behind_y z e i (inl d) = absurd (cc (h.0 z i, d, e, bytes_lt_irrefl x))
    behind_y z e i (inr j) = j

    behind_x : (z : List ℕ) → x ≡ y → Has z ys → Has z (x ∷ xs) → Has z xs
    behind_x z e i (inl d) = absurd (cc (k.0 z i, d, e, bytes_lt_irrefl y))
    behind_x z e i (inr j) = j

pub compact-sort :
    (xs ys : List (List ℕ)) → SameSources xs ys → compact (sort xs) ≡ compact (sort ys)
compact-sort xs ys same =
    Ascends-unique (compact (sort xs)) (compact (sort ys))
      (compact-Ascends (sort xs) (sort-Ordered xs)) (compact-Ascends (sort ys) (sort-Ordered ys))
      λ z. (λ i. from ys z ((same z).0 (to xs z i)), λ i. from xs z ((same z).1 (to ys z i)))
  where
    to : (l : List (List ℕ)) (z : List ℕ) → Has z (compact (sort l)) → Has z l
    to l z i = (sort-Has l z).0 ((compact-Has (sort l) z).0 i)

    from : (l : List (List ℕ)) (z : List ℕ) → Has z l → Has z (compact (sort l))
    from l z i = (compact-Has (sort l) z).1 ((sort-Has l z).1 i)
