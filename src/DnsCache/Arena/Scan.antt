-- ===== src/DnsCache/Arena/Scan.antt =====
-- The search for free blocks: what it finds is free, and it finds a run where there is one.
use dimsum.Prelude.{
  ℕ, zero, suc, ◌+◌, ◌-◌, ◌≤◌, ◌<◌, ◌≡◌, sym, ◌∙◌, inl, inr, Bool, true, false, Option, none, some,
  List, arith, ◌==◌, Bool-cases, get_or,
}
use native.Mathlib.Decide.{dec_lt}
use dimsum.DnsCache.Arena.{scan}

-- `count` free blocks from block `first` on.
abbrev pub Free : List Bool → ℕ → ℕ → Type 0
Free used first count = (k : ℕ) → first ≤ k → k < first + count → get_or used k false ≡ false

abbrev pub Found : List Bool → ℕ → ℕ → ℕ → ℕ → Type 0
Found used need rounds i j =
    (i ≤ j) × (j < i + rounds) × (need ≤ j + 1) × Free used (j + 1 - need) need

-- One more free block behind a run.
Free-grow :
    (used : List Bool) (i run : ℕ)
    → run ≤ i
    → get_or used i false ≡ false
    → Free used (i - run) run
    → Free used (i + 1 - (run + 1)) (run + 1)
Free-grow used i run le e f k a b = elim (dec_lt k i) [
  | yes p ↦ f k (omega arith) (omega arith)
  | no p ↦ let q : k ≡ i = omega arith in rw q e
]

pub scan_sound :
    (used : List Bool) (need rounds i run j : ℕ)
    → run ≤ i
    → run < need
    → Free used (i - run) run
    → scan used need rounds i run ≡ some j
    → Found used need rounds i j
unfolding scan
scan_sound used need zero i run j le lt f h = absurd (cc)
scan_sound used need (suc rounds) i run j le lt f h = elim (Bool-cases (get_or used i false)) [
  | inl busy ↦
      let r =
        scan_sound used need rounds (i + 1) 0 j (omega arith) (omega arith)
          (λ k a b. absurd (omega arith)) (ground arith) in
      (omega (arith, r.0), omega (arith, r.1), r.2, r.3)
  | inr open_block ↦ elim (Bool-cases (run + 1 == need)) [
    | inl full ↦
        let e : j ≡ i = ground arith in
        let n : need ≡ run + 1 = ground arith in
        (omega arith, omega arith, omega arith, rw (e, n) (Free-grow used i run le open_block f))
    | inr short ↦
        let r =
          scan_sound used need rounds (i + 1) (run + 1) j (omega arith) (ground arith)
            (Free-grow used i run le open_block f) (ground arith) in
        (omega (arith, r.0), omega (arith, r.1), r.2, r.3)
  ]
]

pub scan_complete :
    (used : List Bool) (need rounds i run a : ℕ)
    → run ≤ i
    → run < need
    → scan used need rounds i run ≡ none
    → i - run ≤ a
    → a + need ≤ i + rounds
    → ¬ Free used a need
unfolding scan
scan_complete used need zero i run a le lt h lo hi f = absurd (omega arith)
scan_complete used need (suc rounds) i run a le lt h lo hi f =
    elim (Bool-cases (get_or used i false)) [
      | inl busy ↦ elim (dec_lt i a) [
        | yes p ↦
            scan_complete used need rounds (i + 1) 0 a (omega arith) (omega arith) (ground arith)
              (omega arith) (omega arith) f
        | no p ↦ absurd (true_false (sym busy ∙ f i (omega arith) (omega arith)))
      ]
      | inr open_block ↦ elim (Bool-cases (run + 1 == need)) [
        | inl full ↦ absurd (some_none (ground arith))
        | inr short ↦
            scan_complete used need rounds (i + 1) (run + 1) a (omega arith) (ground arith)
              (ground arith) (omega arith) (omega arith) f
      ]
    ]
  where
    true_false : true ≡ false → ⊥
    true_false e = cc

    some_none : ◌≡◌ {A = Option ℕ} (some i) none → ⊥
    some_none e = cc
