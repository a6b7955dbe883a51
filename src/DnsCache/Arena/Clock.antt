-- ===== src/DnsCache/Arena/Clock.antt =====
-- What the second-chance scan keeps, and that it finds an entry where there is one.
use dimsum.Prelude.{
  sum-map-set, same_or_not, get_or-set_self, get_or-set_ne, ℕ, zero, suc, ◌+◌, ◌%◌, ◌<◌, ◌≡◌, refl,
  sym, ap, ◌∙◌, subst, ◌⊎◌, inl, inr, Bool, true, false, List, arith, ◌==◌, Bool-cases, length, set,
  length-set,
}
use dimsum.DnsCache.Arena.{Slot, Shard, no_slot, slot_at, remove, evict_loop}
use dimsum.DnsCache.Arena.Blocks.{length-set_range}
use dimsum.DnsCache.Arena.Sound.{
  Owns, IsPlaced, IsSound, live, taken, live_inside, freed, freed-IsSound, remove-live,
  slot_at-freed, slot_at-freed_ne,
}
use native.Mathlib.Nat.{mod_self, mod-eq_of_lt}
use native.Mathlib.Decide.{dec_lt}

abbrev pub advanced : Shard → Shard
advanced s = record s { hand = (s.hand + 1) % length s.slots }

abbrev pub unflagged : Shard → Shard
unflagged s = record s {
  slots = set s.slots s.hand (record (slot_at s s.hand) { referenced = false });
}

-- Only the second-chance flag of a slot differs.
abbrev pub SameBlocks : Slot → Slot → Type 0
SameBlocks x y = (x.offset ≡ y.offset) × (x.allocated ≡ y.allocated)

pub next_hand :
    (n i : ℕ) → i < n → (((i + 1) % n ≡ i + 1) × (i + 1 < n)) ⊎ (((i + 1) % n ≡ 0) × (i + 1 ≡ n))
next_hand n i h = elim (dec_lt (i + 1) n) [
  | yes p ↦ inl (mod-eq_of_lt p, p)
  | no p ↦ inr (ap (λ z. z % n) (omega arith) ∙ mod_self n, omega arith)
]

pub slot_at-unflagged :
    (s : Shard) (j : ℕ)
    → s.hand < length s.slots
    → SameBlocks (slot_at (unflagged s) j) (slot_at s j)
slot_at-unflagged s j p = elim (same_or_not s.hand j) [
  | inl e ↦
      let q : slot_at (unflagged s) s.hand ≡ record (slot_at s s.hand) { referenced = false } =
        get_or-set_self s.slots s.hand (record (slot_at s s.hand) { referenced = false }) no_slot
          p in
      subst (λ j. SameBlocks (slot_at (unflagged s) j) (slot_at s j)) e
        (ap (λ x. x.offset) q, ap (λ x. x.allocated) q)
  | inr ne ↦
      let q =
        get_or-set_ne s.slots s.hand j (record (slot_at s s.hand) { referenced = false }) no_slot
          ne in
      (ap (λ x. x.offset) q, ap (λ x. x.allocated) q)
]

Owns-same : (x y : Slot) (k : ℕ) → SameBlocks x y → Owns x k → Owns y k
Owns-same x y k e o = (omega (arith, e.0, o.0), omega (arith, e.0, e.1, o.1))

IsPlaced-same : (used : List Bool) (x y : Slot) → SameBlocks x y → IsPlaced used x → IsPlaced used y
IsPlaced-same used x y e p = record {
  offset_whole = omega (arith, e.0, p.offset_whole);
  size_whole = omega (arith, e.1, p.size_whole);
  inside = omega (arith, e.0, e.1, p.inside);
  marked = λ k o. p.marked k (Owns-same y x k (sym (e.0), sym (e.1)) o);
}

pub advanced-IsSound : (s : Shard) → IsSound s → IsSound (advanced s)
advanced-IsSound s h = record {
  hand_inside = elim (next_hand (length s.slots) s.hand h.hand_inside) [
    | inl p ↦ omega (arith, p.0, p.1)
    | inr p ↦ omega (arith, p.0, p.1)
  ];
  cursor_inside = h.cursor_inside;
  placed = h.placed;
  apart = h.apart;
  owned = h.owned;
  tally = h.tally;
  total = h.total;
}

pub unflagged-IsSound : (s : Shard) → IsSound s → IsSound (unflagged s)
unflagged-IsSound s h =
    let x = slot_at s s.hand in
    let y : Slot = record x { referenced = false } in
    let same = λ (j : ℕ). slot_at-unflagged s j h.hand_inside in
    record {
      hand_inside = omega (arith, h.hand_inside, length-set s.slots s.hand y);
      cursor_inside = h.cursor_inside;
      placed = λ j.
          IsPlaced-same s.used (slot_at s j) (slot_at (unflagged s) j)
            (sym ((same j).0), sym ((same j).1)) (h.placed j);
      apart = λ i j k o p.
          h.apart i j k (Owns-same (slot_at (unflagged s) i) (slot_at s i) k (same i) o)
            (Owns-same (slot_at (unflagged s) j) (slot_at s j) k (same j) p);
      owned = λ k u.
          let o = h.owned k u in
          (
            o.0,
            Owns-same (slot_at s (o.0)) (slot_at (unflagged s) (o.0)) k
                (sym ((same (o.0)).0), sym ((same (o.0)).1)) (o.1),
          );
      tally = omega (arith, h.tally, sum-map-set live s.slots s.hand y no_slot h.hand_inside);
      total = omega (arith, h.total, sum-map-set taken s.slots s.hand y no_slot h.hand_inside);
    }

-- What the scan promises, whether or not it finds an entry.
abbrev pub Scanned : Shard → Shard × Bool → Type 0
Scanned s r =
    IsSound r.0
    × (length r.0.slots ≡ length s.slots)
    × (length r.0.used ≡ length s.used)
    × ((j : ℕ) → (slot_at s j).allocated ≡ 0 → (slot_at r.0 j).allocated ≡ 0)
    × (r.1 ≡ true → r.0.entries + 1 ≡ s.entries)

Scanned-trans :
    (s t : Shard) (r : Shard × Bool)
    → length t.slots ≡ length s.slots
    → length t.used ≡ length s.used
    → ((j : ℕ) → (slot_at s j).allocated ≡ 0 → (slot_at t j).allocated ≡ 0)
    → t.entries ≡ s.entries
    → Scanned t r
    → Scanned s r
Scanned-trans s t r a b f n w = (w.0, w.1 ∙ a, w.2 ∙ b, λ j z. w.3 j (f j z), λ e. w.4 e ∙ n)

abbrev removed : Shard → Shard
removed s = let r = remove (advanced s) s.hand in record r { evictions = r.evictions + 1 }

pub still-IsSound : (s : Shard) (n : ℕ) → IsSound s → IsSound (record s { evictions = n })
still-IsSound s n h = record {
  hand_inside = h.hand_inside;
  cursor_inside = h.cursor_inside;
  placed = h.placed;
  apart = h.apart;
  owned = h.owned;
  tally = h.tally;
  total = h.total;
}

pub entries_pos : (s : Shard) (i : ℕ) → IsSound s → 0 < (slot_at s i).allocated → 0 < s.entries
entries_pos s i h l =
    let one : live (slot_at s i) ≡ 1 = ground arith in
    omega (arith, one, h.tally, sum-map-set live s.slots i no_slot no_slot (live_inside s i l))

removed-Scanned :
    (s : Shard) → IsSound s → 0 < (slot_at s s.hand).allocated → Scanned s (removed s, true)
removed-Scanned s h l =
    let a = advanced s in
    let e = remove-live a s.hand l in
    let f : Shard = freed a s.hand in
    let r : Shard = record f { evictions = f.evictions + 1 } in
    let x = slot_at s s.hand in
    subst (λ t. Scanned s (record t { evictions = t.evictions + 1 }, true)) (sym e)
      (
        still-IsSound f (f.evictions + 1) (freed-IsSound a s.hand (advanced-IsSound s h) l),
        length-set s.slots s.hand no_slot,
        length-set_range s.used _ _ false,
        (λ j z. elim (same_or_not s.hand j) [
          | inl q ↦
              ap (λ x. x.allocated)
                (subst (λ j. slot_at f j ≡ no_slot) q (slot_at-freed a s.hand h.hand_inside))
          | inr ne ↦ ap (λ x. x.allocated) (slot_at-freed_ne a s.hand j ne) ∙ z
        ]),
        λ e. omega (arith, entries_pos s s.hand h l),
      )

pub evict_loop-Scanned : (n : ℕ) (s : Shard) → IsSound s → Scanned s (evict_loop n s)
unfolding evict_loop
evict_loop-Scanned zero s h = (h, refl, refl, (λ j z. z), λ e. absurd (differ e))
  where
    differ : false ≡ true → ⊥
    differ e = cc
evict_loop-Scanned (suc n) s h = elim (Bool-cases ((slot_at s s.hand).allocated == 0)) [
  | inl e ↦
      let q : evict_loop (suc n) s ≡ evict_loop n (advanced s) = cc in
      subst (Scanned s) (sym q) (
        Scanned-trans s (advanced s) (evict_loop n (advanced s)) refl refl (λ j z. z) refl
          (evict_loop-Scanned n (advanced s) (advanced-IsSound s h)))
  | inr e ↦ elim (Bool-cases ((slot_at s s.hand).referenced)) [
    | inl f ↦
        let t = unflagged s in
        let u : Shard = record t { hand = (s.hand + 1) % length s.slots } in
        let q : evict_loop (suc n) s ≡ evict_loop n u = cc in
        let y : Slot = record (slot_at s s.hand) { referenced = false } in
        let same : length t.slots ≡ length s.slots = length-set s.slots s.hand y in
        let sound : IsSound u =
          subst (λ l. IsSound (record t { hand = (s.hand + 1) % l })) same
            (advanced-IsSound t (unflagged-IsSound s h)) in
        subst (Scanned s) (sym q) (
          Scanned-trans s u (evict_loop n u) same refl
            (λ j z. (slot_at-unflagged s j h.hand_inside).1 ∙ z) refl
            (evict_loop-Scanned n u sound))
    | inr f ↦
        let q : evict_loop (suc n) s ≡ (removed s, true) = cc in
        subst (Scanned s) (sym q) (removed-Scanned s h (ground arith))
  ]
]
