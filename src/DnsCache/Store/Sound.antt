-- ===== src/DnsCache/Store/Sound.antt =====
-- A blob that is stored takes free blocks only.
use dimsum.Prelude.{
  sum-map-set, same_or_not, get_or-set_self, get_or-set_ne, ℕ, ◌+◌, ◌*◌, ◌≤◌, ◌<◌, ◌≡◌, sym, ap,
  ◌∙◌, subst, ◌≢◌, ◌⊎◌, inl, inr, true, false, List, map, arith, length, set, get_or, length-set,
  sum,
}
use dimsum.DnsCache.Arena.{Slot, Shard, no_slot, slot_at, block_size, set_range}
use dimsum.DnsCache.Arena.Blocks.{
  length-set_range, set_range_inside, set_range_outside, Takes, SameEntries,
}
use dimsum.DnsCache.Arena.Sound.{Owns, IsPlaced, IsSound, live, taken, within_or_not}
use dimsum.DnsCache.Store.{fill}

module _ (s s' : Shard) (target first count : ℕ) (blob : List ℕ) (x : Slot) (h : IsSound s)
    (inside : target < length s.slots) (empty : (slot_at s target).allocated ≡ 0)
    (some_blocks : 0 < count) (t : Takes s s' first count) (e : SameEntries s s') where
  abbrev new_slot : Slot
  new_slot = record x { offset = first * block_size; allocated = count * block_size }

  abbrev stored : Shard
  stored = fill s' target blob x (first * block_size) (count * block_size)

  slots_lem : stored.slots ≡ set s.slots target new_slot
  unfolding fill
  slots_lem = ap (λ l. set l target new_slot) (e.0)

  used_lem : stored.used ≡ set_range s.used first count true
  unfolding fill
  used_lem = t.2

  slot_at_new : slot_at stored target ≡ new_slot
  slot_at_new =
      ap (λ l. get_or l target no_slot) slots_lem
      ∙ get_or-set_self s.slots target new_slot no_slot inside

  slot_at_old : (j : ℕ) → target ≢ j → slot_at stored j ≡ slot_at s j
  slot_at_old j ne =
      ap (λ l. get_or l j no_slot) slots_lem ∙ get_or-set_ne s.slots target j new_slot no_slot ne

  new-Owns : (k : ℕ) → Owns new_slot k → (first ≤ k) × (k < first + count)
  new-Owns k o = (omega (arith, o.0), omega (arith, o.1))

  -- No entry held a block that was taken.
  not_both : (j k : ℕ) → Owns (slot_at s j) k → ¬ Owns new_slot k
  not_both j k o n =
      let w = new-Owns k n in differ (sym ((h.placed j).marked k o) ∙ t.1 k (w.0) (w.1))
    where
      differ : true ≡ false → ⊥
      differ e = cc

  owner_at :
      (j k : ℕ)
      → Owns (slot_at stored j) k
      → ((target ≡ j) × Owns new_slot k) ⊎ Owns (slot_at s j) k
  owner_at j k o = elim (same_or_not target j) [
    | inl q ↦ inl (q, subst (λ y. Owns y k) (ap (slot_at stored) (sym q) ∙ slot_at_new) o)
    | inr ne ↦ inr (subst (λ y. Owns y k) (slot_at_old j ne) o)
  ]

  IsPlaced-new : IsPlaced stored.used new_slot
  IsPlaced-new = record {
    offset_whole = omega arith;
    size_whole = omega arith;
    inside = omega (arith, ap length used_lem, length-set_range s.used first count true, t.0);
    marked = λ k o.
        let w = new-Owns k o in
        ap (λ u. get_or u k false) used_lem
        ∙ set_range_inside s.used first count true k w (omega (arith, t.0, w.1));
  }

  kept_mark : (k : ℕ) → get_or s.used k false ≡ true → get_or stored.used k false ≡ true
  kept_mark k m = elim (within_or_not new_slot k) [
    | inl o ↦ IsPlaced-new.marked k o
    | inr n ↦
        ap (λ u. get_or u k false) used_lem
        ∙ set_range_outside s.used first count true k
            (λ w. n (omega (arith, w.0), omega (arith, w.1)))
        ∙ m
  ]

  IsPlaced-all : (j : ℕ) → IsPlaced stored.used (slot_at stored j)
  IsPlaced-all j = elim (same_or_not target j) [
    | inl q ↦
        subst (IsPlaced stored.used) (sym (ap (slot_at stored) (sym q) ∙ slot_at_new)) IsPlaced-new
    | inr ne ↦
        let p = h.placed j in
        subst (IsPlaced stored.used) (sym (slot_at_old j ne)) (record {
          offset_whole = p.offset_whole;
          size_whole = p.size_whole;
          inside =
              omega (arith, p.inside, ap length used_lem, length-set_range s.used first count true);
          marked = λ k o. kept_mark k (p.marked k o);
        })
  ]

  apart_all : (i j k : ℕ) → Owns (slot_at stored i) k → Owns (slot_at stored j) k → i ≡ j
  apart_all i j k o p = elim (owner_at i k o) [
    | inl a ↦ elim (owner_at j k p) [
      | inl b ↦ sym (a.0) ∙ b.0
      | inr b ↦ absurd (not_both j k b (a.1))
    ]
    | inr a ↦ elim (owner_at j k p) [
      | inl b ↦ absurd (not_both i k a (b.1))
      | inr b ↦ h.apart i j k a b
    ]
  ]

  owned_all : (k : ℕ) → get_or stored.used k false ≡ true → (i : ℕ) × Owns (slot_at stored i) k
  owned_all k u = elim (within_or_not new_slot k) [
    | inl o ↦ (target, subst (λ y. Owns y k) (sym slot_at_new) o)
    | inr n ↦
        let old =
          set_range_outside s.used first count true k
            (λ w. n (omega (arith, w.0), omega (arith, w.1))) in
        let o = h.owned k (sym old ∙ ap (λ u. get_or u k false) (sym used_lem) ∙ u) in
        (
          o.0,
          subst (λ y. Owns y k)
              (sym (
                slot_at_old (o.0)
                  (λ q. not_empty k (subst (λ j. Owns (slot_at s j) k) (sym q) (o.1)))))
              (o.1),
        )
  ]
    where
      not_empty : (k : ℕ) → ¬ Owns (slot_at s target) k
      not_empty k o = omega (arith, empty, o.0, o.1)

  pub fill-IsSound : IsSound stored
  unfolding fill
  fill-IsSound = record {
    hand_inside =
        omega (arith, h.hand_inside, e.3, ap length slots_lem, length-set s.slots target new_slot);
    cursor_inside =
        omega (arith, t.4, ap length used_lem, length-set_range s.used first count true);
    placed = IsPlaced-all;
    apart = apart_all;
    owned = owned_all;
    tally =
        let none_live : live (slot_at s target) ≡ 0 = ground arith in
        let one : live new_slot ≡ 1 = ground arith in
        omega (
          arith,
          h.tally,
          e.2,
          none_live,
          one,
          sum-map-set live s.slots target new_slot no_slot inside,
          ap (λ l. sum (map live l)) slots_lem,
        );
    total = omega (
      arith,
      h.total,
      t.3,
      empty,
      sum-map-set taken s.slots target new_slot no_slot inside,
      ap (λ l. sum (map taken l)) slots_lem,
    );
  }
