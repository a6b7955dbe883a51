-- ===== src/DnsCache/Store/Room.antt =====
-- A blob that fits the arena is always stored.
use dimsum.Prelude.{
  [], ◌∷◌, get_or-set_self, set, ℕ, zero, suc, ◌+◌, ◌%◌, ◌*◌, ◌≤◌, ◌<◌, ◌≡◌, refl, sym, ap, ◌∙◌,
  subst, inl, inr, Bool, true, false, some, List, map, arith, Bool-cases, Option-cases, length,
  get_or, replicate, sum,
}
use dimsum.Prelude.Bytes.{byte}
use dimsum.DnsWire.Build.{overwrite}
use dimsum.DnsWire.Build.Layout.{length-overwrite, byte-overwrite_inside}
use dimsum.DnsCache.Arena.{
  Slot, Shard, no_slot, slot_at, block_size, blocks_for, allocate, evict, evict_loop, remove,
}
use dimsum.DnsCache.Arena.Blocks.{SameEntries, Allocated, allocate-Allocated}
use dimsum.DnsCache.Arena.Scan.{Free}
use dimsum.DnsCache.Arena.Sound.{Owns, IsPlaced, IsSound, live, taken, is_free}
use dimsum.DnsCache.Arena.Clock.{Scanned, evict_loop-Scanned}
use dimsum.DnsCache.Arena.Chance.{evict-live}
use dimsum.DnsCache.Store.{copy_at, fill, make_room, new_shard}
use dimsum.DnsCache.Store.Sound.{fill-IsSound}

evict-Scanned : (s : Shard) → IsSound s → Scanned s (evict s)
unfolding evict
evict-Scanned s h = evict_loop-Scanned (2 * length s.slots) s h

IsPlaced-used :
    (used used' : List Bool) (x y : Slot)
    → used' ≡ used
    → y ≡ x
    → IsPlaced used x
    → IsPlaced used' y
IsPlaced-used used used' x y e q p = rw (e, q) p

-- A shard whose cursor only was moved is as sound as before.
moved-IsSound :
    (s t : Shard)
    → t.used ≡ s.used
    → t.occupied ≡ s.occupied
    → t.cursor ≤ length s.used
    → SameEntries s t
    → IsSound s
    → IsSound t
moved-IsSound s t u o c e h =
    let q : (j : ℕ) → slot_at t j ≡ slot_at s j = λ j. ap (λ l. get_or l j no_slot) (e.0) in
    record {
      hand_inside = omega (arith, h.hand_inside, e.3, ap length (e.0));
      cursor_inside = omega (arith, c, ap length u);
      placed = λ j. IsPlaced-used s.used t.used (slot_at s j) (slot_at t j) u (q j) (h.placed j);
      apart = λ i j k a b.
          h.apart i j k (subst (λ x. Owns x k) (q i) a) (subst (λ x. Owns x k) (q j) b);
      owned = λ k m.
          let w = h.owned k (ap (λ l. get_or l k false) (sym u) ∙ m) in
          (w.0, subst (λ x. Owns x k) (sym (q (w.0))) (w.1));
      tally = e.2 ∙ h.tally ∙ ap (λ l. sum (map live l)) (sym (e.0));
      total = o ∙ h.total ∙ ap (λ l. sum (map taken l)) (sym (e.0));
    }

-- The slot holds the entry, and the blob stands in the arena at the slot's place.
abbrev pub Stored : Shard → ℕ → List ℕ → Slot → Type 0
Stored s target blob x =
    (offset : ℕ) × (total : ℕ) × (length blob ≤ total)
    × (slot_at s target ≡ record x { offset = offset; allocated = total })
    × (offset + total ≤ length s.arena)
    × ((k : ℕ) → k < length blob → byte s.arena (offset + k) ≡ byte blob k)

copy_at-overwrite : (p : List ℕ) (i : ℕ) (b : List ℕ) → copy_at p i b ≡ overwrite p i b
unfolding copy_at
copy_at-overwrite p i [] = refl
copy_at-overwrite p i (x ∷ b) = copy_at-overwrite (set p i x) (i + 1) b

fill-Stored :
    (s : Shard) (target offset total : ℕ) (blob : List ℕ) (x : Slot)
    → target < length s.slots
    → length blob ≤ total
    → offset + total ≤ length s.arena
    → Stored (fill s target blob x offset total) target blob x
unfolding fill
fill-Stored s target offset total blob x h le inside =
    let e = copy_at-overwrite s.arena offset blob in
    (
      offset,
      total,
      le,
      get_or-set_self s.slots target (record x { offset = offset; allocated = total }) no_slot h,
      rw (e, length-overwrite s.arena offset blob) inside,
      λ k lt. rw e (byte-overwrite_inside s.arena offset blob k (omega arith) lt),
    )

filled_IsSound :
    (s t : Shard) (target : ℕ) (blob : List ℕ) (x : Slot) (offset total : ℕ)
    → IsSound s
    → target < length s.slots
    → (slot_at s target).allocated ≡ 0
    → 0 < length blob
    → Allocated (length blob) s t (some (offset, total))
    → IsSound (fill t target blob x offset total)
filled_IsSound s t target blob x offset total h inside empty pos
      (first, count, o, n, le, lt, takes, same) =
    subst (λ k. IsSound (fill t target blob x k total)) (sym o)
      (subst (λ k. IsSound (fill t target blob x (first * block_size) k)) (sym n)
        (fill-IsSound s t target first count blob x h inside empty (omega arith) takes same))

-- A sound shard without an entry to evict has a free arena.
all-Free : (s : Shard) (count : ℕ) → IsSound s → (evict s).1 ≡ false → Free s.used 0 count
all-Free s count h e k lo hi = elim (Bool-cases (get_or s.used k false)) [
  | inl m ↦
      let o = h.owned k m in
      absurd (differ (sym ((evict-live s (o.0) h (omega (arith, o.1.0, o.1.1))).0) ∙ e))
  | inr m ↦ m
]
  where
    differ : true ≡ false → ⊥
    differ e = cc

remove_arena : (s : Shard) (i : ℕ) → (remove s i).arena ≡ s.arena
unfolding remove
remove_arena s i = ground arith

evict_loop_arena : (n : ℕ) (s : Shard) → (evict_loop n s).0.arena ≡ s.arena
unfolding evict_loop
evict_loop_arena zero s = refl
evict_loop_arena (suc n) s =
    let s' : Shard = record s { hand = (s.hand + 1) % length s.slots } in
    let x : Slot = record (slot_at s s.hand) { referenced = false } in
    ground (
      arith,
      evict_loop_arena n s',
      evict_loop_arena n (record s' { slots = set s.slots s.hand x }),
      remove_arena s' s.hand,
    )

evict_arena : (s : Shard) → (evict s).0.arena ≡ s.arena
unfolding evict
evict_arena s = evict_loop_arena (2 * length s.slots) s

-- The loop of `put` stores every blob that is not larger than the arena, within one round more than
-- the shard has entries, and leaves the shard sound: the target slot holds the entry, the arena holds
-- the blob's bytes at the slot's place, no two entries share a block, every used block has an owner,
-- and the tallies of entries and bytes are right. The shard is sound, its arena has 256 bytes for
-- each block, the target slot exists and is empty, and the blob is not empty.
pub make_room-IsSound :
    (fuel : ℕ) (s : Shard) (target : ℕ) (blob : List ℕ) (x : Slot)
    → IsSound s
    → length s.arena ≡ length s.used * block_size
    → target < length s.slots
    → (slot_at s target).allocated ≡ 0
    → 0 < length blob
    → blocks_for (length blob) ≤ length s.used
    → s.entries < fuel
    → (s' : Shard) × (make_room fuel s target blob x ≡ some (s', true))
      × IsSound s'
      × Stored s' target blob x
unfolding make_room
make_room-IsSound zero s target blob x h whole inside empty pos fits lt = absurd (omega arith)
make_room-IsSound (suc fuel) s target blob x h whole inside empty pos fits lt =
    let a = allocate-Allocated s (length blob) pos h.cursor_inside in
    let t = (allocate s (length blob)).0 in
    elim (Option-cases ((allocate s (length blob)).1)) [
      | inr ((offset, total), e) ↦
          let b = subst (Allocated (length blob) s t) e a in
          let q : make_room (suc fuel) s target blob x
              ≡ some (fill t target blob x offset total, true) =
            cc in
          (
            fill t target blob x offset total,
            q,
            filled_IsSound s t target blob x offset total h inside empty pos b,
            fill-Stored t target offset total blob x (omega (arith, inside, ap length (b.7.0)))
                (b.4) (omega (arith, b.2, b.3, b.6.0, ap length (b.7.1), whole)),
          )
      | inl e ↦
          let b = subst (Allocated (length blob) s t) e a in
          let sound = moved-IsSound s t (b.1) (b.2) (b.3) (b.4) h in
          let w = evict-Scanned t sound in
          elim (Bool-cases ((evict t).1)) [
            | inl f ↦
                let q : make_room (suc fuel) s target blob x
                    ≡ make_room fuel (evict t).0 target blob x =
                  cc in
                let r =
                  make_room-IsSound fuel ((evict t).0) target blob x (w.0)
                    (omega (
                      arith,
                      ap length (evict_arena t),
                      ap length (b.4.1),
                      w.2,
                      ap length (b.1),
                      whole,
                    ))
                    (omega (arith, w.1, ap length (b.4.0)))
                    (w.3 target (ap (λ l. (get_or l target no_slot).allocated) (b.4.0) ∙ empty)) pos
                    (omega (arith, w.2, ap length (b.1))) (omega (arith, w.4 f, b.4.2)) in
                (r.0, q ∙ r.1, r.2, r.3)
            | inr f ↦ absurd (
                b.0 0 (omega arith) (
                  subst (λ u. Free u 0 (blocks_for (length blob))) (b.1)
                    (all-Free t (blocks_for (length blob)) sound f)))
          ]
    ]

get_or-replicate {ℓ} : {A : Type ℓ} (n j : ℕ) (d : A) → get_or (replicate n d) j d ≡ d
get_or-replicate zero j d = refl
get_or-replicate (suc n) zero d = refl
get_or-replicate (suc n) (suc j) d = get_or-replicate n j d

sum_none {ℓ} : {A : Type ℓ} (f : A → ℕ) (n : ℕ) (d : A) → f d ≡ 0 → sum (map f (replicate n d)) ≡ 0
sum_none f zero d z = refl
sum_none f (suc n) d z = omega (arith, z, sum_none f n d z)

-- `New` makes sound shards.
pub new_shard-IsSound :
    (slots blocks : ℕ) → 0 < length (replicate slots no_slot) → IsSound (new_shard slots blocks)
new_shard-IsSound slots blocks pos =
    let s = new_shard slots blocks in
    let e : (j : ℕ) → slot_at s j ≡ no_slot = λ j. get_or-replicate slots j no_slot in
    record {
      hand_inside = pos;
      cursor_inside = omega arith;
      placed = λ j. subst (IsPlaced s.used) (sym (e j)) (is_free s.used);
      apart = λ i j k o p.
          let n : Owns no_slot k = subst (λ x. Owns x k) (e i) o in
          absurd (omega (arith, n.0, n.1));
      owned = λ k u. absurd (differ (sym (get_or-replicate blocks k false) ∙ u));
      tally = sym (sum_none live slots no_slot refl);
      total = sym (sum_none taken slots no_slot refl);
    }
  where
    differ : false ≡ true → ⊥
    differ e = cc
