-- ===== src/Policy/Rules/Order.antt =====
-- `moreSpecific` is a strict total order on rules with different identifiers.
use dimsum.Prelude.{ℕ, ◌≤◌, ◌≡◌, refl, inl, inr, true, false, List, [], ◌∷◌, arith, Bool-cases}
use dimsum.Policy.Rules.{CompiledRule, rank, bytes_lt, more_specific}

pub bytes_lt_irrefl : (xs : List ℕ) → bytes_lt xs xs ≡ false
unfolding bytes_lt
bytes_lt_irrefl [] = refl
bytes_lt_irrefl (x ∷ xs) = ground (arith, bytes_lt_irrefl xs)

pub bytes_lt_trans :
    (xs ys zs : List ℕ) → bytes_lt xs ys ≡ true → bytes_lt ys zs ≡ true → bytes_lt xs zs ≡ true
unfolding bytes_lt
bytes_lt_trans [] [] zs h k = cc
bytes_lt_trans [] (y ∷ ys) [] h k = cc
bytes_lt_trans [] (y ∷ ys) (z ∷ zs) h k = refl
bytes_lt_trans (x ∷ xs) [] zs h k = cc
bytes_lt_trans (x ∷ xs) (y ∷ ys) [] h k = cc
bytes_lt_trans (x ∷ xs) (y ∷ ys) (z ∷ zs) h k = ground (arith, bytes_lt_trans xs ys zs)

pub bytes_lt_total : (xs ys : List ℕ) → bytes_lt xs ys ≡ false → bytes_lt ys xs ≡ false → xs ≡ ys
unfolding bytes_lt
bytes_lt_total [] [] h k = refl
bytes_lt_total [] (y ∷ ys) h k = cc
bytes_lt_total (x ∷ xs) [] h k = cc
bytes_lt_total (x ∷ xs) (y ∷ ys) h k = ground (arith, bytes_lt_total xs ys)

pub more_specific_irrefl : (a : CompiledRule) → more_specific a a ≡ false
unfolding more_specific
more_specific_irrefl a = ground (arith, bytes_lt_irrefl a.id)

pub more_specific_trans :
    (a b c : CompiledRule)
    → more_specific a b ≡ true
    → more_specific b c ≡ true
    → more_specific a c ≡ true
unfolding more_specific
more_specific_trans a b c h k = ground (arith, bytes_lt_trans a.id b.id c.id)

-- Two rules of which neither is more specific have one identifier.
pub more_specific_total :
    (a b : CompiledRule) → more_specific a b ≡ false → more_specific b a ≡ false → a.id ≡ b.id
unfolding more_specific
more_specific_total a b h k = ground (arith, bytes_lt_total a.id b.id)

pub bytes_lt_negtrans :
    (xs ys zs : List ℕ) → bytes_lt xs ys ≡ false → bytes_lt ys zs ≡ false → bytes_lt xs zs ≡ false
unfolding bytes_lt
bytes_lt_negtrans [] [] zs h k = k
bytes_lt_negtrans [] (y ∷ ys) zs h k = cc
bytes_lt_negtrans (x ∷ xs) [] [] h k = refl
bytes_lt_negtrans (x ∷ xs) [] (z ∷ zs) h k = cc
bytes_lt_negtrans (x ∷ xs) (y ∷ ys) [] h k = refl
bytes_lt_negtrans (x ∷ xs) (y ∷ ys) (z ∷ zs) h k = ground (arith, bytes_lt_negtrans xs ys zs)

pub more_specific_negtrans :
    (a b c : CompiledRule)
    → more_specific a b ≡ false
    → more_specific b c ≡ false
    → more_specific a c ≡ false
unfolding more_specific
more_specific_negtrans a b c h k = ground (arith, bytes_lt_negtrans a.id b.id c.id)

pub more_specific_asym : (a b : CompiledRule) → more_specific a b ≡ true → more_specific b a ≡ false
more_specific_asym a b h = elim (Bool-cases (more_specific b a)) [
  | inl k ↦ absurd (cc (more_specific_trans a b a h k, more_specific_irrefl a))
  | inr k ↦ k
]

-- The rank decides first.
pub rank-le : (a b : CompiledRule) → more_specific b a ≡ false → rank a.class ≤ rank b.class
unfolding more_specific
rank-le a b h = ground arith
