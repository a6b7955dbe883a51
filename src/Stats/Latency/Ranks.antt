-- ===== src/Stats/Latency/Ranks.antt =====
-- The percentile's bin is that of the nearest rank.
use dimsum.Prelude.{
  Bool-cases, inl, inr, ℕ, suc, ◌+◌, ◌-◌, ◌*◌, ◌/◌, ◌%◌, ◌^◌, ◌≤◌, ◌<◌, ◌≡◌, refl, ap, ◌∙◌, subst,
  true, false, ◌||◌, some, List, [], ◌∷◌, arith, ltb, leb, ◌==◌, length, take, sum,
}
use dimsum.Stats.Latency.{bins, total, find_bin, latency_bounds, midpoint, rank_of, percentile}
use native.Mathlib.Nat.{
  add-mul, mul_assoc, mul-le-mul_left, mul-le-mul_right, pow-le-pow_right, one-le-pow,
}
use native.Mathlib.Decide.{dec_lt}

pub total-sum : (h : List ℕ) → sum h < 2 ^ 64 → total h ≡ sum h
unfolding total
total-sum [] s = refl
total-sum (n ∷ h) s = let r = total-sum h (omega arith) in rw r (omega arith)

-- Bin `i` holds the observation of rank `rank` in the order of the bins.
abbrev pub Ranked : List ℕ → ℕ → ℕ → Type 0
Ranked h rank i = (i < length h) × (sum (take i h) < rank) × (rank ≤ sum (take (suc i) h))

find_bin-Ranked :
    (h : List ℕ) (i seen rank : ℕ)
    → seen + sum h < 2 ^ 64
    → seen < rank
    → rank ≤ seen + sum h
    → (k : ℕ) × (find_bin h i seen rank ≡ some (i + k)) × Ranked h (rank - seen) k
unfolding find_bin
find_bin-Ranked [] i seen rank s lo hi = absurd (omega arith)
find_bin-Ranked (n ∷ h) i seen rank s lo hi =
    let w : (seen + n) % 2 ^ 64 ≡ seen + n = omega arith in
    elim (dec_lt (seen + n) rank) [
      | yes p ↦
          let r = find_bin-Ranked h (i + 1) (seen + n) rank (omega arith) p (omega arith) in
          let b : leb rank ((seen + n) % 2 ^ 64) ≡ false = ground arith in
          let q : find_bin (n ∷ h) i seen rank ≡ find_bin h (i + 1) ((seen + n) % 2 ^ 64) rank =
            cc in
          let t : i + 1 + r.0 ≡ i + suc (r.0) = omega arith in
          (
            suc (r.0),
            q ∙ ap (λ w. find_bin h (i + 1) w rank) w ∙ r.1 ∙ ap some t,
            (omega (arith, r.2.0), omega (arith, r.2.1), omega (arith, r.2.2)),
          )
      | no p ↦
          let b : leb rank ((seen + n) % 2 ^ 64) ≡ true = ground arith in
          let q : find_bin (n ∷ h) i seen rank ≡ some i = cc in
          let t : i ≡ i + 0 = omega arith in
          (0, q ∙ ap some t, (omega arith, omega arith, omega arith))
    ]

-- The rank is the least number that is not below `percent` hundredths of the observations.
abbrev pub IsRank : ℕ → ℕ → ℕ → Type 0
IsRank n percent rank = (n * percent ≤ rank * 100) × (rank * 100 < n * percent + 100)

split_product : (n p : ℕ) → n * p ≡ 100 * (n / 100 * p) + n % 100 * p
split_product n p =
    let e : n ≡ 100 * (n / 100) + n % 100 = omega arith in
    ap (λ k. k * p) e
    ∙ add-mul (100 * (n / 100)) (n % 100) p
    ∙ ap (λ k. k + n % 100 * p) (mul_assoc 100 (n / 100) p)

rank_of-IsRank : (n p : ℕ) → IsRank n p (rank_of n p)
unfolding rank_of
rank_of-IsRank n p = (omega (arith, split_product n p), omega (arith, split_product n p))

-- The middle of a bin's bounds, as `LatencyBounds` gives them.
abbrev pub middle : ℕ → ℕ
middle i = ((latency_bounds i).0 + (latency_bounds i).1) / 2

midpoint-middle : (i : ℕ) → i < bins → midpoint i ≡ middle i
unfolding midpoint latency_bounds
midpoint-middle i lt = elim (Bool-cases (ltb i 16)) [
  | inl low ↦ rw low (omega arith)
  | inr high ↦
      let k = (i - 16) / 16 in
      let c : 2 ^ k ≤ 2 ^ 27 = pow-le-pow_right (omega arith) {j = 27} (ground arith) in
      let r = 16 + (i - 16) % 16 in
      let p : r * 2 ^ k ≤ 31 * 2 ^ k = mul-le-mul_right (2 ^ k) (omega arith) in
      let d : 17 + (i - 16) % 16 ≡ r + 1 = omega arith in
      let n : (r + 1) * 2 ^ k ≡ r * 2 ^ k + 2 ^ k = omega arith in
      let pos : 1 ≤ 2 ^ k = one-le-pow k 2 (omega arith) in rw (high, d, n) (omega arith)
]

-- `Percentile` is the middle of the bounds of the bin that holds the observation of the nearest rank:
-- the least rank that is not below `percent` hundredths of the observations. The histogram has its
-- 464 bins, the number of observations is positive and below 2 ^ 64, and the percentile from 1 to
-- 100.
pub percentile-Ranked :
    (h : List ℕ) (percent : ℕ)
    → length h ≡ bins
    → 0 < sum h
    → sum h < 2 ^ 64
    → 0 < percent
    → percent ≤ 100
    → (rank : ℕ) × (i : ℕ) × IsRank (sum h) percent rank
      × Ranked h rank i
      × (percentile h percent ≡ some (middle i))
unfolding percentile
percentile-Ranked h p whole pos s lo hi =
    let rank = rank_of (sum h) p in
    let r = rank_of-IsRank (sum h) p in
    let a : sum h * 1 ≤ sum h * p = mul-le-mul_left (sum h) (omega arith) in
    let b : sum h * p ≤ sum h * 100 = mul-le-mul_left (sum h) hi in
    let f = find_bin-Ranked h 0 0 rank (omega arith) (omega (arith, r.0)) (omega (arith, r.1)) in
    let t : 0 + f.0 ≡ f.0 = omega arith in
    let z : (sum h == 0 || p == 0 || ltb 100 p) ≡ false = ground arith in
    let k : rank - 0 ≡ rank = omega arith in
    let mid = midpoint-middle f.0 (omega (arith, f.2.0, whole)) in
    (
      rank,
      f.0,
      r,
      subst (λ k. Ranked h k (f.0)) k (f.2),
      rw (total-sum h s, z, f.1, t) (ap some mid),
    )
