-- ===== src/DnsCache/Arena/Blocks.antt =====
-- What the allocator hands out, in blocks and in bytes.
use dimsum.Prelude.{
  get_or-set_self, get_or-set_ne, ℕ, zero, suc, ◌+◌, ◌-◌, ◌*◌, ◌≤◌, ◌<◌, ◌≡◌, refl, sym, ◌∙◌, subst,
  inl, inr, Bool, true, false, Option, none, some, List, arith, ◌==◌, Bool-cases, Option-cases,
  length, set, get_or, length-set,
}
use dimsum.DnsCache.Arena.{
  Shard, block_size, blocks_for, scan, find_run, set_range, take_run, allocate,
}
use dimsum.DnsCache.Arena.Scan.{Free, Found, scan_sound, scan_complete}
use native.Mathlib.Decide.{dec_lt}

pub length-set_range :
    (used : List Bool) (first count : ℕ) (v : Bool)
    → length (set_range used first count v) ≡ length used
unfolding set_range
length-set_range used first zero v = refl
length-set_range used first (suc count) v =
    length-set_range (set used first v) (first + 1) count v ∙ length-set used first v

abbrev Within : ℕ → ℕ → ℕ → Type 0
Within first count k = (first ≤ k) × (k < first + count)

pub set_range_outside :
    (used : List Bool) (first count : ℕ) (v : Bool) (k : ℕ)
    → ¬ Within first count k
    → get_or (set_range used first count v) k false ≡ get_or used k false
unfolding set_range
set_range_outside used first zero v k h = refl
set_range_outside used first (suc count) v k h =
    set_range_outside (set used first v) (first + 1) count v k
      (λ w. h (omega (arith, w.0), omega (arith, w.1)))
    ∙ get_or-set_ne used first k v false (λ e. h (omega (arith, e), omega (arith, e)))

pub set_range_inside :
    (used : List Bool) (first count : ℕ) (v : Bool) (k : ℕ)
    → Within first count k
    → k < length used
    → get_or (set_range used first count v) k false ≡ v
unfolding set_range
set_range_inside used first zero v k h lt = absurd (omega (arith, h.0, h.1))
set_range_inside used first (suc count) v k h lt = elim (dec_lt first k) [
  | yes p ↦
      set_range_inside (set used first v) (first + 1) count v k (omega arith, omega (arith, h.1))
        (omega (arith, length-set used first v))
  | no p ↦
      let e : first ≡ k = omega (arith, h.0) in
      set_range_outside (set used first v) (first + 1) count v k (λ w. omega (arith, w.0, e))
      ∙ subst (λ z. get_or (set used first v) z false ≡ v) e
          (get_or-set_self used first v false (omega arith))
]

-- Both passes of the search.
find_run_sound :
    (used : List Bool) (need cursor i : ℕ)
    → 0 < need
    → cursor ≤ length used
    → find_run used need cursor ≡ some i
    → Found used need (length used) 0 i
unfolding find_run
find_run_sound used need cursor i pos le h =
    elim (Option-cases (scan used need (length used - cursor) cursor 0)) [
      | inl e ↦
          let r =
            scan_sound used need cursor 0 0 i (omega arith) pos (λ k a b. absurd (omega arith))
              (cc) in
          (omega arith, omega (arith, r.1), r.2, r.3)
      | inr (j, e) ↦
          let q : j ≡ i = cc in
          let r =
            scan_sound used need (length used - cursor) cursor 0 j (omega arith) pos
              (λ k a b. absurd (omega arith)) e in
          rw (sym q) (omega arith, omega (arith, r.1), r.2, r.3)
    ]

pub find_run_complete :
    (used : List Bool) (need a : ℕ)
    → 0 < need
    → find_run used need 0 ≡ none
    → a + need ≤ length used
    → ¬ Free used a need
unfolding find_run
find_run_complete used need a pos h fits f =
    elim (Option-cases (scan used need (length used - 0) 0 0)) [
      | inl e ↦
          scan_complete used need (length used - 0) 0 0 a (omega arith) pos e (omega arith)
            (omega arith) f
      | inr (j, e) ↦ let q : ◌≡◌ {A = Option ℕ} (some j) none = cc in absurd (some_none q)
    ]
  where
    some_none : {j : ℕ} → ◌≡◌ {A = Option ℕ} (some j) none → ⊥
    some_none e = cc

-- The run of `count` blocks from block `first` on is taken, and nothing else changes.
abbrev pub Takes : Shard → Shard → ℕ → ℕ → Type 0
Takes s s' first count =
    (first + count ≤ length s.used)
    × Free s.used first count
    × (s'.used ≡ set_range s.used first count true)
    × (s'.occupied ≡ s.occupied + count * block_size)
    × (s'.cursor ≤ length s.used)

-- What every allocation leaves alone.
abbrev pub SameEntries : Shard → Shard → Type 0
SameEntries s s' =
    (s'.slots ≡ s.slots) × (s'.arena ≡ s.arena) × (s'.entries ≡ s.entries) × (s'.hand ≡ s.hand)

-- An allocation takes a free run of blocks for `size` bytes, or no run of that length is free.
abbrev pub Allocated : ℕ → Shard → Shard → Option (ℕ × ℕ) → Type 0
Allocated size s s' (some (offset, total)) =
    (first : ℕ) × (count : ℕ) × (offset ≡ first * block_size)
    × (total ≡ count * block_size)
    × (size ≤ total)
    × (total < size + block_size)
    × Takes s s' first count
    × SameEntries s s'
Allocated size s s' none =
    ((a : ℕ) → a + blocks_for size ≤ length s.used → ¬ Free s.used a (blocks_for size))
    × (s'.used ≡ s.used)
    × (s'.occupied ≡ s.occupied)
    × (s'.cursor ≤ length s.used)
    × SameEntries s s'

take_run_lem :
    (s : Shard) (size i : ℕ)
    → Found s.used (blocks_for size) (length s.used) 0 i
    → let r = take_run s (blocks_for size) i in Allocated size s (r.0) (r.1)
unfolding take_run
take_run_lem s size i f = (
  i + 1 - blocks_for size,
  blocks_for size,
  refl,
  refl,
  omega arith,
  omega arith,
  (omega (arith, f.1, f.2), f.3, refl, refl, omega (arith, f.1)),
  (refl, refl, refl, refl),
)

need_pos : (size : ℕ) → 0 < size → 0 < blocks_for size
need_pos size pos = omega arith

-- `allocate` takes a free run of whole blocks for the size, the smallest number of them, marks just
-- these as used and counts them as occupied, or fails with nothing taken, and then no free run of
-- that many blocks is left anywhere in the arena, on either side of the cursor or across it. The
-- size is positive and the cursor is in the arena.
pub allocate-Allocated :
    (s : Shard) (size : ℕ)
    → 0 < size
    → s.cursor ≤ length s.used
    → Allocated size s ((allocate s size).0) ((allocate s size).1)
unfolding allocate
allocate-Allocated s size pos le =
    let outcome = λ (r : Shard × Option (ℕ × ℕ)). Allocated size s r.0 r.1 in
    elim (Option-cases (find_run s.used (blocks_for size) s.cursor)) [
      | inr (i, e) ↦
          let q : allocate s size ≡ take_run s (blocks_for size) i = ground arith in
          subst outcome (sym q) (
            take_run_lem s size i
              (find_run_sound s.used (blocks_for size) s.cursor i (need_pos size pos) le e))
      | inl e ↦ elim (Bool-cases (s.cursor == 0)) [
        | inl z ↦
            let q : allocate s size ≡ (s, none) = ground arith in
            let c : s.cursor ≡ 0 = ground arith in
            subst outcome (sym q) (
              λ a.
                  find_run_complete s.used (blocks_for size) a (need_pos size pos)
                    (subst (λ c. find_run s.used (blocks_for size) c ≡ none) c e),
              refl,
              refl,
              le,
              (refl, refl, refl, refl),
            )
        | inr z ↦ elim (Option-cases (find_run s.used (blocks_for size) 0)) [
          | inr (i, f) ↦
              let q : allocate s size ≡ take_run (record s { cursor = 0 }) (blocks_for size) i =
                ground arith in
              subst outcome (sym q) (
                take_run_lem (record s { cursor = 0 }) size i
                  (find_run_sound s.used (blocks_for size) 0 i (need_pos size pos) (omega arith) f))
          | inl f ↦
              let q : allocate s size ≡ (record s { cursor = 0 }, none) = ground arith in
              subst outcome (sym q) (
                λ a. find_run_complete s.used (blocks_for size) a (need_pos size pos) f,
                refl,
                refl,
                omega arith,
                (refl, refl, refl, refl),
              )
        ]
      ]
    ]
