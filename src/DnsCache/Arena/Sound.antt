-- ===== src/DnsCache/Arena/Sound.antt =====
-- The invariant of a shard: each used block belongs to exactly one entry, and the tallies are right.
use dimsum.Prelude.{
  sum-map-set, get_or_past, same_or_not, get_or-set_self, get_or-set_ne, ℕ, ◌+◌, ◌-◌, ◌*◌, ◌/◌, ◌≤◌,
  ◌<◌, ◌≡◌, refl, sym, ap, ◌∙◌, subst, ◌≢◌, ◌⊎◌, inl, inr, Bool, true, false, List, map, arith,
  ◌==◌, if◌then◌else◌, Bool-cases, length, set, get_or, length-set, sum,
}
use dimsum.DnsCache.Arena.{Slot, Shard, no_slot, slot_at, block_size, set_range, remove}
use dimsum.DnsCache.Arena.Blocks.{length-set_range, set_range_inside, set_range_outside}
use native.Mathlib.Decide.{dec_lt}

-- The entry `x` holds block `k`.
abbrev pub Owns : Slot → ℕ → Type 0
Owns x k = (x.offset / block_size ≤ k) × (k < x.offset / block_size + x.allocated / block_size)

-- The blocks of an entry are whole, inside the arena and marked.
pub record IsPlaced (used : List Bool) (x : Slot) : Type 0 where
  pub offset_whole : x.offset ≡ x.offset / block_size * block_size
  pub size_whole : x.allocated ≡ x.allocated / block_size * block_size
  pub inside : x.offset / block_size + x.allocated / block_size ≤ length used
  pub marked : (k : ℕ) → Owns x k → get_or used k false ≡ true

abbrev pub live : Slot → ℕ
live x = if x.allocated == 0 then 0 else 1

abbrev pub taken : Slot → ℕ
taken x = x.allocated

pub record IsSound (s : Shard) : Type 0 where
  pub hand_inside : s.hand < length s.slots
  pub cursor_inside : s.cursor ≤ length s.used
  pub placed : (i : ℕ) → IsPlaced s.used (slot_at s i)
  pub apart : (i j k : ℕ) → Owns (slot_at s i) k → Owns (slot_at s j) k → i ≡ j
  pub owned : (k : ℕ) → get_or s.used k false ≡ true → (i : ℕ) × Owns (slot_at s i) k
  pub tally : s.entries ≡ sum (map live s.slots)
  pub total : s.occupied ≡ sum (map taken s.slots)

pub is_free : (used : List Bool) → IsPlaced used no_slot
is_free used = record {
  offset_whole = refl;
  size_whole = refl;
  inside = omega arith;
  marked = λ k o. absurd (omega (arith, o.0, o.1));
}

-- A live slot stands inside the table.
pub live_inside : (s : Shard) (i : ℕ) → 0 < (slot_at s i).allocated → i < length s.slots
live_inside s i h = elim (dec_lt i (length s.slots)) [
  | yes p ↦ p
  | no p ↦
      let e : slot_at s i ≡ no_slot = get_or_past s.slots i no_slot p in
      let z : (slot_at s i).allocated ≡ 0 = ap (λ x. x.allocated) e in absurd (omega arith)
]

pub within_or_not : (x : Slot) (k : ℕ) → Owns x k ⊎ (¬ Owns x k)
within_or_not x k = elim (dec_lt k (x.offset / block_size)) [
  | yes p ↦ inr (λ o. omega (arith, o.0))
  | no p ↦ elim (dec_lt k (x.offset / block_size + x.allocated / block_size)) [
    | yes q ↦ inl (omega arith, omega arith)
    | no q ↦ inr (λ o. omega (arith, o.1))
  ]
]

-- The shard without the entry of slot `i`.
abbrev pub freed : Shard → ℕ → Shard
freed s i = record s {
  slots = set s.slots i no_slot;
  used =
      set_range s.used ((slot_at s i).offset / block_size) ((slot_at s i).allocated / block_size)
        false;
  entries = s.entries - 1;
  occupied = s.occupied - (slot_at s i).allocated;
}

pub remove-live : (s : Shard) (i : ℕ) → 0 < (slot_at s i).allocated → remove s i ≡ freed s i
unfolding remove
remove-live s i h = let e : ((slot_at s i).allocated == 0) ≡ false = ground arith in rw e refl

pub slot_at-freed : (s : Shard) (i : ℕ) → i < length s.slots → slot_at (freed s i) i ≡ no_slot
slot_at-freed s i lt = get_or-set_self s.slots i no_slot no_slot lt

pub slot_at-freed_ne : (s : Shard) (i j : ℕ) → i ≢ j → slot_at (freed s i) j ≡ slot_at s j
slot_at-freed_ne s i j ne = get_or-set_ne s.slots i j no_slot no_slot ne

freed-owner :
    (s : Shard) (i j k : ℕ)
    → i < length s.slots
    → Owns (slot_at (freed s i) j) k
    → (i ≢ j) × Owns (slot_at s j) k
freed-owner s i j k lt o = elim (same_or_not i j) [
  | inl e ↦
      let z : slot_at (freed s i) j ≡ no_slot =
        subst (λ j. slot_at (freed s i) j ≡ no_slot) e (slot_at-freed s i lt) in
      let n : Owns no_slot k = subst (λ x. Owns x k) z o in absurd (omega (arith, n.0, n.1))
  | inr ne ↦ (ne, subst (λ x. Owns x k) (slot_at-freed_ne s i j ne) o)
]

freed-IsPlaced :
    (s : Shard) (i j : ℕ)
    → IsSound s
    → i < length s.slots
    → IsPlaced (freed s i).used (slot_at (freed s i) j)
freed-IsPlaced s i j h lt = elim (same_or_not i j) [
  | inl e ↦
      let z : slot_at (freed s i) j ≡ no_slot =
        subst (λ j. slot_at (freed s i) j ≡ no_slot) e (slot_at-freed s i lt) in
      subst (λ x. IsPlaced (freed s i).used x) (sym z) (is_free (freed s i).used)
  | inr ne ↦
      let p = h.placed j in
      let x = slot_at s i in
      subst (λ x. IsPlaced (freed s i).used x) (sym (slot_at-freed_ne s i j ne))
        (record {
          offset_whole = p.offset_whole;
          size_whole = p.size_whole;
          inside = omega (
            arith,
            p.inside,
            length-set_range s.used (x.offset / block_size) (x.allocated / block_size) false,
          );
          marked = λ k o.
              set_range_outside s.used (x.offset / block_size) (x.allocated / block_size) false k
                (λ w. ne (h.apart i j k w o))
              ∙ p.marked k o;
        })
]

freed-owned :
    (s : Shard) (i k : ℕ)
    → IsSound s
    → i < length s.slots
    → get_or (freed s i).used k false ≡ true
    → (j : ℕ) × Owns (slot_at (freed s i) j) k
freed-owned s i k h lt u =
    let x = slot_at s i in
    elim (within_or_not x k) [
      | inl w ↦
          let f =
            set_range_inside s.used (x.offset / block_size) (x.allocated / block_size) false k w
              (omega (arith, w.1, (h.placed i).inside)) in
          absurd (differ (sym u ∙ f))
      | inr out ↦
          let v : get_or s.used k false ≡ true =
            sym (
              set_range_outside s.used (x.offset / block_size) (x.allocated / block_size) false k
                out)
            ∙ u in
          let o = h.owned k v in
          (
            o.0,
            subst (λ x. Owns x k)
                (sym (
                  slot_at-freed_ne s i (o.0)
                    (λ e. out (subst (λ j. Owns (slot_at s j) k) (sym e) (o.1)))))
                (o.1),
          )
    ]
  where
    differ : true ≡ false → ⊥
    differ e = cc

pub freed-IsSound :
    (s : Shard) (i : ℕ) → IsSound s → 0 < (slot_at s i).allocated → IsSound (freed s i)
freed-IsSound s i h l =
    let lt = live_inside s i l in
    let x = slot_at s i in
    record {
      hand_inside = omega (arith, h.hand_inside, length-set s.slots i no_slot);
      cursor_inside = omega (
        arith,
        h.cursor_inside,
        length-set_range s.used (x.offset / block_size) (x.allocated / block_size) false,
      );
      placed = λ j. freed-IsPlaced s i j h lt;
      apart =
          λ a b k o p. h.apart a b k ((freed-owner s i a k lt o).1) ((freed-owner s i b k lt p).1);
      owned = λ k u. freed-owned s i k h lt u;
      tally =
          let one : live x ≡ 1 = ground arith in
          omega (arith, h.tally, one, sum-map-set live s.slots i no_slot no_slot lt);
      total = omega (arith, h.total, sum-map-set taken s.slots i no_slot no_slot lt);
    }

-- `remove` keeps a shard sound: the entry's blocks are free again and no other entry's are.
pub remove-IsSound : (s : Shard) (i : ℕ) → IsSound s → IsSound (remove s i)
unfolding remove
remove-IsSound s i h = elim (Bool-cases ((slot_at s i).allocated == 0)) [
  | inl e ↦ rw e h
  | inr e ↦
      subst IsSound (sym (remove-live s i (ground arith))) (freed-IsSound s i h (ground arith))
]
