-- ===== src/Stats/Latency/Bins.antt =====
-- Every duration falls into the bin whose bounds contain it.
use dimsum.Prelude.{
  ℕ, zero, suc, ◌+◌, ◌-◌, ◌*◌, ◌/◌, ◌%◌, ◌^◌, ◌≤◌, ◌<◌, ◌≡◌, refl, sym, ap, ◌∙◌, subst, inl, inr,
  false, arith, ltb, ◌==◌, Bool-cases,
}
use dimsum.Stats.Latency.{bins, bit_len, latency_index, latency_bounds}
use native.Mathlib.Nat.{
  pow-suc, pow-zero, one-le-pow, pow-le-pow_right, div-lt_iff_lt-mul, mul-le-mul_right,
  le-div_iff_mul-le, div-mul-le_self, lt-div-mul-add,
}
use native.Mathlib.Decide.{dec_lt}

pos_pow : (k : ℕ) → 0 < 2 ^ k
pos_pow k = omega (arith, one-le-pow k 2 (omega arith))

bit_len_upper : (width n : ℕ) → n < 2 ^ width → n < 2 ^ bit_len width n
unfolding bit_len
bit_len_upper zero n h = h
bit_len_upper (suc width) n h = elim (Bool-cases (n == 0)) [
  | inl z ↦
      let q : bit_len (suc width) n ≡ 0 = ground arith in
      let p : n ≡ 0 = ground arith in rw (q, p) (omega arith)
  | inr z ↦
      let q : bit_len (suc width) n ≡ suc (bit_len width (n / 2)) = ground arith in
      let r = bit_len_upper width (n / 2) (omega (arith, pow-suc 2 width)) in
      rw q (omega (arith, r, pow-suc 2 (bit_len width (n / 2))))
]

bit_len_zero : (width : ℕ) → bit_len width 0 ≡ 0
unfolding bit_len
bit_len_zero zero = refl
bit_len_zero (suc width) = refl

bit_len_lower : (width n : ℕ) → n < 2 ^ width → 0 < n → 2 ^ bit_len width n ≤ 2 * n
unfolding bit_len
bit_len_lower zero n h pos = omega (arith, pow-zero 2)
bit_len_lower (suc width) n h pos =
    let q : bit_len (suc width) n ≡ suc (bit_len width (n / 2)) = ground arith in
    elim (dec_lt 0 (n / 2)) [
      | yes p ↦
          let r = bit_len_lower width (n / 2) (omega (arith, pow-suc 2 width)) p in
          rw q (omega (arith, r, pow-suc 2 (bit_len width (n / 2))))
      | no p ↦
          let z : n / 2 ≡ 0 = omega arith in
          let o : n ≡ 1 = omega arith in rw (q, z, bit_len_zero width, o) (omega arith)
    ]

bit_len_le : (width n : ℕ) → bit_len width n ≤ width
unfolding bit_len
bit_len_le zero n = omega arith
bit_len_le (suc width) n = elim (Bool-cases (n == 0)) [
  | inl z ↦ ground arith
  | inr z ↦
      let q : bit_len (suc width) n ≡ suc (bit_len width (n / 2)) = ground arith in
      omega (arith, q, bit_len_le width (n / 2))
]

bounds_at :
    (s q : ℕ)
    → 16 ≤ q
    → q < 32
    → latency_bounds (s * 16 + q) ≡ (q * 2 ^ s % 2 ^ 32, ((q + 1) * 2 ^ s - 1) % 2 ^ 32)
unfolding latency_bounds
bounds_at s q lo hi =
    let a : ltb (s * 16 + q) 16 ≡ false = ground arith in
    let b : (s * 16 + q - 16) / 16 ≡ s = omega arith in
    let c : 16 + (s * 16 + q - 16) % 16 ≡ q = omega arith in
    let d : 17 + (s * 16 + q - 16) % 16 ≡ q + 1 = omega arith in rw (a, b, c, d) refl

-- The bounds of the bin hold the duration, and the bin exists.
abbrev pub Binned : ℕ → ℕ → Type 0
Binned m i = (i < bins) × ((latency_bounds i).0 ≤ m) × (m ≤ (latency_bounds i).1)

Binned-at :
    (m s : ℕ)
    → m < 2 ^ 32
    → s ≤ 27
    → 16 * 2 ^ s ≤ m
    → m < 32 * 2 ^ s
    → Binned m (s * 16 + m / 2 ^ s)
Binned-at m s h le lo hi =
    let p = pos_pow s in
    let q = m / 2 ^ s in
    let a : 16 ≤ q = (le-div_iff_mul-le p).1 lo in
    let b : q < 32 = (div-lt_iff_lt-mul p).1 hi in
    let c : 2 ^ s ≤ 2 ^ 27 = pow-le-pow_right (omega arith) le in
    let e = bounds_at s q a b in
    let f : q * 2 ^ s ≤ m = div-mul-le_self m (2 ^ s) in
    let g : m < q * 2 ^ s + 2 ^ s = lt-div-mul-add p in
    let k : q * 2 ^ s ≤ 31 * 2 ^ s = mul-le-mul_right (2 ^ s) (omega (arith, b)) in
    let n : (q + 1) * 2 ^ s ≡ q * 2 ^ s + 2 ^ s = omega arith in
    (omega arith, rw e (omega arith), rw (e, n) (omega arith))

pow_five : (s : ℕ) → 2 ^ (s + 5) ≡ 32 * 2 ^ s
pow_five s =
    let t : s + 5 ≡ suc (suc (suc (suc (suc s)))) = omega arith in
    rw t (
      omega (
        arith,
        pow-suc 2 s,
        pow-suc 2 (s + 1),
        pow-suc 2 (s + 2),
        pow-suc 2 (s + 3),
        pow-suc 2 (s + 4),
      ))

large :
    (m len : ℕ)
    → m < 2 ^ 32
    → 32 ≤ m
    → len ≤ 32
    → 2 ^ len ≤ 2 * m
    → m < 2 ^ len
    → Binned m ((len - 5) * 16 + m / 2 ^ (len - 5))
large m len h ge le lo hi = elim (dec_lt 5 len) [
  | yes p ↦
      let t : len - 5 + 5 ≡ len = omega arith in
      let e : 2 ^ len ≡ 32 * 2 ^ (len - 5) = ap (λ k. 2 ^ k) (sym t) ∙ pow_five (len - 5) in
      Binned-at m (len - 5) h (omega arith) (omega (arith, e)) (omega (arith, e))
  | no p ↦
      let c : 2 ^ len ≤ 2 ^ 5 = pow-le-pow_right (omega arith) {j = 5} (omega arith) in
      absurd (omega (arith, c))
]

-- `LatencyIndex` sends every 32-bit duration to one of the 464 bins, and the bounds that
-- `LatencyBounds` gives for that bin contain the duration. The duration is below 2 ^ 32.
pub latency_index-Binned : (m : ℕ) → m < 2 ^ 32 → Binned m (latency_index m)
unfolding latency_index latency_bounds
latency_index-Binned m h = elim (Bool-cases (ltb m 32)) [
  | inl e ↦
      let q : latency_index m ≡ m = ground arith in
      elim (Bool-cases (ltb m 16)) [
        | inl f ↦ let b : latency_bounds m ≡ (m, m) = ground arith in rw (q, b) (ground arith)
        | inr f ↦
            let t : 0 * 16 + m ≡ m = omega arith in
            let b : latency_bounds m ≡ (m * 2 ^ 0 % 2 ^ 32, ((m + 1) * 2 ^ 0 - 1) % 2 ^ 32) =
              subst (λ k. latency_bounds k ≡ (m * 2 ^ 0 % 2 ^ 32, ((m + 1) * 2 ^ 0 - 1) % 2 ^ 32)) t
                (bounds_at 0 m (ground arith) (ground arith)) in
            rw (q, b) (ground arith)
      ]
  | inr e ↦
      let q : latency_index m ≡ (bit_len 32 m - 5) * 16 + m / 2 ^ (bit_len 32 m - 5) =
        ground arith in
      subst (Binned m) (sym q) (
        large m (bit_len 32 m) h (ground arith) (bit_len_le 32 m)
          (bit_len_lower 32 m h (ground arith)) (bit_len_upper 32 m h))
]
