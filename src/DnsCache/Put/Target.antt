-- ===== src/DnsCache/Put/Target.antt =====
-- The slot that `put` empties for an entry.
use dimsum.Prelude.{
  ℕ, zero, suc, ◌+◌, ◌*◌, ◌%◌, ◌≤◌, ◌<◌, ◌≡◌, refl, sym, ap, ◌∙◌, subst, inl, inr, true, false,
  Option, none, some, List, [], ◌∷◌, map, arith, ◌==◌, if◌then◌else◌, Bool-cases, length, set,
  get_or, take, drop, length-set, sum-map-set, take-set_lt, drop-set, get_or-take, get_or-drop,
  length-take, length-drop, sum,
}
use dimsum.DnsCache.Arena.{ways, Slot, Shard, slot_at, no_slot, remove}
use dimsum.DnsCache.Arena.Blocks.{length-set_range}
use dimsum.DnsCache.Arena.Sound.{IsSound, remove-IsSound, remove-live, slot_at-freed, live_inside}
use dimsum.DnsCache.Arena.Clock.{unflagged, unflagged-IsSound, next_hand, still-IsSound}
use dimsum.DnsCache.Key.{Key}
use dimsum.DnsCache.Put.{holds_key, find_target, clear_way, choose_target}

-- What the search leaves alone.
abbrev pub SameSizes : Shard → Shard → Type 0
SameSizes s t =
    (length t.slots ≡ length s.slots) × (length t.used ≡ length s.used) × (t.arena ≡ s.arena)

-- The shard is sound and its slot `i`, one of the bucket's, is empty.
abbrev pub Emptied : ℕ → Shard → Shard → ℕ → Type 0
Emptied first s t i =
    IsSound t × SameSizes s t × (first ≤ i) × (i < first + ways) × ((slot_at t i).allocated ≡ 0)

remove_lem :
    (s : Shard) (i : ℕ) → SameSizes s (remove s i) × ((slot_at (remove s i) i).allocated ≡ 0)
unfolding remove
remove_lem s i = elim (Bool-cases ((slot_at s i).allocated == 0)) [
  | inl e ↦
      let q : remove s i ≡ s = cc in
      subst (λ t. SameSizes s t × ((slot_at t i).allocated ≡ 0)) (sym q)
        ((refl, refl, refl), ground arith)
  | inr e ↦
      let l : 0 < (slot_at s i).allocated = ground arith in
      let x = slot_at s i in
      subst (λ t. SameSizes s t × ((slot_at t i).allocated ≡ 0)) (sym (remove-live s i l))
        (
          (length-set s.slots i no_slot, length-set_range s.used _ _ false, refl),
          ap (λ y. y.allocated) (slot_at-freed s i (live_inside s i l)),
        )
]

remove-Emptied :
    (first : ℕ) (s : Shard) (i : ℕ)
    → IsSound s
    → first ≤ i
    → i < first + ways
    → Emptied first s (remove s i) i
remove-Emptied first s i h lo hi =
    let r = remove_lem s i in (remove-IsSound s i h, r.0, lo, hi, r.1)

-- A target of the first loop: in the bucket and empty, if there is one.
abbrev Found : ℕ → Shard → Shard × Option ℕ → Type 0
Found first s (t, some i) = Emptied first s t i
Found first s (t, none) = t ≡ s

find_target-Found :
    (rounds : ℕ) (s : Shard) (first i : ℕ) (k : Key) (hash : ℕ) (target : Option ℕ)
    → IsSound s
    → first ≤ i
    → i + rounds ≤ first + ways
    → Found first s (s, target)
    → Found first s (find_target rounds s i k hash target)
unfolding find_target
find_target-Found zero s first i k hash target h lo hi f = f
find_target-Found (suc rounds) s first i k hash target h lo hi f =
    elim (Bool-cases ((slot_at s i).allocated == 0)) [
      | inl e ↦
          let q : find_target (suc rounds) s i k hash target
              ≡ find_target rounds s (i + 1) k hash (some i) =
            cc in
          subst (Found first s) (sym q) (
            find_target-Found rounds s first (i + 1) k hash (some i) h (omega arith) (omega arith)
              (h, (refl, refl, refl), lo, omega arith, ground arith))
      | inr e ↦ elim (Bool-cases (holds_key s (slot_at s i) k hash)) [
        | inl m ↦
            let q : find_target (suc rounds) s i k hash target ≡ (remove s i, some i) = cc in
            subst (Found first s) (sym q) (remove-Emptied first s i h lo (omega arith))
        | inr m ↦
            let q : find_target (suc rounds) s i k hash target
                ≡ find_target rounds s (i + 1) k hash target =
              cc in
            subst (Found first s) (sym q) (
              find_target-Found rounds s first (i + 1) k hash target h (omega arith) (omega arith)
                f)
      ]
    ]

with_hand-IsSound :
    (s : Shard) (hand : ℕ) → IsSound s → hand < length s.slots → IsSound (record s { hand = hand })
with_hand-IsSound s hand h lt = record {
  hand_inside = lt;
  cursor_inside = h.cursor_inside;
  placed = h.placed;
  apart = h.apart;
  owned = h.owned;
  tally = h.tally;
  total = h.total;
}

-- The flags that are set in the bucket.
abbrev flag : Slot → ℕ
flag x = if x.referenced then 1 else 0

abbrev flags_in : Shard → ℕ → ℕ
flags_in s first = sum (map flag (take ways (drop first s.slots)))

flags_le : (xs : List Slot) → sum (map flag xs) ≤ length xs
flags_le [] = omega arith
flags_le (x ∷ xs) = let r = flags_le xs in ground arith

-- Clearing a set flag of the bucket.
cleared_flag :
    (s : Shard) (first r : ℕ) (x : Slot)
    → r < ways
    → first + ways ≤ length s.slots
    → (slot_at s (first + r)).referenced ≡ true
    → x.referenced ≡ false
    → sum (map flag (take ways (drop first (set s.slots (first + r) x)))) + 1 ≡ flags_in s first
cleared_flag s first r x lt fits on off =
    let way = take ways (drop first s.slots) in
    let n : r < length way =
      omega (arith, length-take ways (drop first s.slots), length-drop first s.slots) in
    let e : take ways (drop first (set s.slots (first + r) x)) ≡ set way r x =
      ap (take ways) (drop-set first s.slots r x) ∙ take-set_lt ways (drop first s.slots) r x lt in
    let g : get_or way r no_slot ≡ slot_at s (first + r) =
      get_or-take ways (drop first s.slots) r no_slot lt ∙ get_or-drop first s.slots r no_slot in
    let one : flag (get_or way r no_slot) ≡ 1 = ap flag g ∙ ap (λ b. if b then 1 else 0) on in
    let none_left : flag x ≡ 0 = ap (λ b. if b then 1 else 0) off in
    ap (λ l. sum (map flag l) + 1) e
    ∙ omega (arith, one, none_left, sum-map-set flag way r x no_slot n)

Emptied-same :
    (first : ℕ) (s t u : Shard) (i : ℕ) → SameSizes s t → Emptied first t u i → Emptied first s u i
Emptied-same first s t u i (a, b, c) (h, (d, e, f), lo, hi, z) =
    (h, (d ∙ a, e ∙ b, f ∙ c), lo, hi, z)

-- What the second chance promises.
abbrev pub Chosen : ℕ → Shard → Shard × Option ℕ → Type 0
Chosen first s r = (i : ℕ) × (r.1 ≡ some i) × Emptied first s r.0 i

next_inside : (s : Shard) → IsSound s → (s.hand + 1) % length s.slots < length s.slots
next_inside s h = elim (next_hand (length s.slots) s.hand h.hand_inside) [
  | inl p ↦ omega (arith, p.0, p.1)
  | inr p ↦ omega (arith, p.0, p.1, h.hand_inside)
]

clear_way-Chosen :
    (rounds : ℕ) (s : Shard) (first : ℕ)
    → IsSound s
    → first + ways ≤ length s.slots
    → flags_in s first < rounds
    → Chosen first s (clear_way rounds s first)
unfolding clear_way
clear_way-Chosen zero s first h fits few = absurd (omega arith)
clear_way-Chosen (suc rounds) s first h fits few =
    let r = s.hand % ways in
    let i = first + r in
    let x = slot_at s i in
    let hand = (s.hand + 1) % length s.slots in
    let hand_lt : hand < length s.slots = next_inside s h in
    let s' : Shard = record s { hand = hand } in
    elim (Bool-cases x.referenced) [
      | inl e ↦
          let y : Slot = record x { referenced = false } in
          let t : Shard = record s' { slots = set s.slots i y } in
          let q : clear_way (suc rounds) s first ≡ clear_way rounds t first = cc in
          let n = length-set s.slots i y in
          let at_i =
            unflagged-IsSound (record s { hand = i }) (with_hand-IsSound s i h (omega arith)) in
          let sound : IsSound t =
            with_hand-IsSound (unflagged (record s { hand = i })) hand at_i
              (omega (arith, n, hand_lt)) in
          let f = cleared_flag s first r y (omega arith) fits e refl in
          let w = clear_way-Chosen rounds t first sound (omega (arith, n)) (omega (arith, f)) in
          subst (Chosen first s) (sym q)
            (w.0, w.1, Emptied-same first s t _ (w.0) (n, refl, refl) (w.2))
      | inr e ↦
          let u = remove s' i in
          let v : Shard = record u { evictions = u.evictions + 1 } in
          let q : clear_way (suc rounds) s first ≡ (v, some i) = cc in
          let w =
            remove-Emptied first s' i (with_hand-IsSound s hand h hand_lt) (omega arith)
              (omega arith) in
          subst (Chosen first s) (sym q)
            (i, refl, (still-IsSound u (u.evictions + 1) (w.0), w.1, w.2, w.3, w.4))
    ]

-- `put` always finds a slot of the bucket: it is empty then, and the shard is sound.
pub choose_target-Chosen :
    (s : Shard) (first : ℕ) (k : Key) (hash : ℕ)
    → IsSound s
    → first + ways ≤ length s.slots
    → Chosen first s (choose_target s first k hash)
unfolding choose_target
choose_target-Chosen s first k hash h fits =
    settle (find_target ways s first k hash none)
      (find_target-Found ways s first first k hash none h (omega arith) (omega arith) refl)
  where
    few : flags_in s first < 2 * ways
    few =
        omega
          (arith, flags_le (take ways (drop first s.slots)), length-take ways (drop first s.slots))

    settle :
        (r : Shard × Option ℕ)
        → Found first s r
        → Chosen first s (elim (r.1) [ some i ↦ r | none ↦ clear_way (2 * ways) (r.0) first ])
    settle (t, some i) f = (i, refl, f)
    settle (t, none) f =
        subst (λ t. Chosen first s (clear_way (2 * ways) t first)) (sym f)
          (clear_way-Chosen (2 * ways) s first h fits few)
