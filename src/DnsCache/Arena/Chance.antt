-- ===== src/DnsCache/Arena/Chance.antt =====
-- Two turns of the hand are enough to find an entry.
use dimsum.Prelude.{
  get_or-set_self, get_or-set_ne, ℕ, zero, suc, ◌+◌, ◌-◌, ◌*◌, ◌%◌, ◌<◌, ◌≡◌, refl, sym, ap, ◌∙◌,
  subst, ◌≢◌, ◌⊎◌, inl, inr, true, false, arith, ◌==◌, Bool-cases, length, length-set,
}
use dimsum.DnsCache.Arena.{Slot, Shard, no_slot, slot_at, evict_loop, evict}
use dimsum.DnsCache.Arena.Sound.{IsSound, live_inside}
use dimsum.DnsCache.Arena.Clock.{advanced, unflagged, next_hand, evict_loop-Scanned}
use native.Mathlib.Decide.{dec_lt}

-- The hand comes to slot `j` after `d` steps round a table of `n` slots.
abbrev Ahead : ℕ → ℕ → ℕ → ℕ → Type 0
Ahead n hand j d = (d < n) × ((hand + d ≡ j) ⊎ (hand + d ≡ n + j))

Ahead-step :
    (n hand j d : ℕ) → hand < n → j < n → Ahead n hand j (suc d) → Ahead n ((hand + 1) % n) j d
Ahead-step n hand j d h k a = elim (next_hand n hand h) [
  | inl p ↦ elim (a.1) [
    | inl q ↦ (omega (arith, a.0), inl (omega (arith, p.0, q)))
    | inr q ↦ (omega (arith, a.0), inr (omega (arith, p.0, q)))
  ]
  | inr p ↦ elim (a.1) [
    | inl q ↦ absurd (omega (arith, p.1, q))
    | inr q ↦ (omega (arith, a.0), inl (omega (arith, p.0, p.1, q)))
  ]
]

Ahead-turn : (n hand : ℕ) → hand < n → Ahead n ((hand + 1) % n) hand (n - 1)
Ahead-turn n hand h = elim (next_hand n hand h) [
  | inl p ↦ (omega arith, inr (omega (arith, p.0)))
  | inr p ↦ (omega arith, inl (omega (arith, p.0, p.1)))
]

Ahead-some : (n hand j : ℕ) → hand < n → j < n → (d : ℕ) × Ahead n hand j d
Ahead-some n hand j h k = elim (dec_lt j hand) [
  | yes p ↦ (n - hand + j, (omega arith, inr (omega arith)))
  | no p ↦ (j - hand, (omega arith, inl (omega arith)))
]

-- The scan has passed over a slot without removing it, and has cleared its flag.
abbrev Passed : Shard → Shard → Type 0
Passed s t =
    (length t.slots ≡ length s.slots)
    × (t.hand ≡ (s.hand + 1) % length s.slots)
    × ((j : ℕ) → s.hand ≢ j → slot_at t j ≡ slot_at s j)
    × (0 < (slot_at s s.hand).allocated
        → (0 < (slot_at t s.hand).allocated) × ((slot_at t s.hand).referenced ≡ false))

evict_loop-cases :
    (n : ℕ) (s : Shard)
    → s.hand < length s.slots
    → ((evict_loop (suc n) s).1 ≡ true)
      ⊎ ((t : Shard) × (evict_loop (suc n) s ≡ evict_loop n t) × Passed s t)
unfolding evict_loop
evict_loop-cases n s h = elim (Bool-cases ((slot_at s s.hand).allocated == 0)) [
  | inl e ↦ inr (advanced s, cc, (refl, refl, (λ j ne. refl), λ l. absurd (ground arith)))
  | inr e ↦ elim (Bool-cases ((slot_at s s.hand).referenced)) [
    | inl f ↦
        let x : Slot = record (slot_at s s.hand) { referenced = false } in
        let q : slot_at (unflagged s) s.hand ≡ x = get_or-set_self s.slots s.hand x no_slot h in
        inr (
          record (unflagged s) { hand = (s.hand + 1) % length s.slots },
          cc,
          (
            length-set s.slots s.hand x,
            refl,
            (λ j ne. get_or-set_ne s.slots s.hand j x no_slot ne),
            λ l. (omega (arith, ap (λ y. y.allocated) q), ap (λ y. y.referenced) q),
          ),
        )
    | inr f ↦ inl (ground arith)
  ]
]

-- The hand and the distance to a slot after one step.
Passed-hand : (s t : Shard) → s.hand < length s.slots → Passed s t → t.hand < length t.slots
Passed-hand s t h p = elim (next_hand (length s.slots) s.hand h) [
  | inl q ↦ omega (arith, p.0, p.1, q.0, q.1)
  | inr q ↦ omega (arith, p.0, p.1, q.0, q.1)
]

Passed-Ahead :
    (s t : Shard) (j d : ℕ)
    → Passed s t
    → Ahead (length s.slots) ((s.hand + 1) % length s.slots) j d
    → Ahead (length t.slots) t.hand j d
Passed-Ahead s t j d p a = rw (p.0, p.1) a

not_here : (n hand j d : ℕ) → hand < n → Ahead n hand j (suc d) → j < n → hand ≢ j
not_here n hand j d h a k e = elim (a.1) [
  | inl q ↦ omega (arith, q, e)
  | inr q ↦ omega (arith, q, e, a.0)
]

here : (n hand j : ℕ) → hand < n → Ahead n hand j 0 → hand ≡ j
here n hand j h a = elim (a.1) [ inl q ↦ omega (arith, q) | inr q ↦ absurd (omega (arith, q)) ]

-- A slot whose flag is clear is found in less than a turn.
evict_loop_unflagged :
    (d n : ℕ) (s : Shard) (j : ℕ)
    → s.hand < length s.slots
    → j < length s.slots
    → 0 < (slot_at s j).allocated
    → (slot_at s j).referenced ≡ false
    → Ahead (length s.slots) s.hand j d
    → d < n
    → (evict_loop n s).1 ≡ true
unfolding evict_loop
evict_loop_unflagged d zero s j h k l f a lt = absurd (omega arith)
evict_loop_unflagged zero (suc n) s j h k l f a lt =
    let e = here (length s.slots) s.hand j h a in
    let l' : 0 < (slot_at s s.hand).allocated =
      subst (λ j. 0 < (slot_at s j).allocated) (sym e) l in
    let f' : (slot_at s s.hand).referenced ≡ false =
      subst (λ j. (slot_at s j).referenced ≡ false) (sym e) f in
    ground arith
evict_loop_unflagged (suc d) (suc n) s j h k l f a lt = elim (evict_loop-cases n s h) [
  | inl e ↦ e
  | inr (t, e, p) ↦
      let q = p.2 j (not_here (length s.slots) s.hand j d h a k) in
      ap (λ r. r.1) e
      ∙ evict_loop_unflagged d n t j (Passed-hand s t h p) (omega (arith, p.0))
          (subst (λ x. 0 < x.allocated) (sym q) l) (subst (λ x. x.referenced ≡ false) (sym q) f)
          (Passed-Ahead s t j d p (Ahead-step (length s.slots) s.hand j d h k a)) (omega arith)
]

-- Any entry is found in two turns.
evict_loop_live :
    (d n : ℕ) (s : Shard) (j : ℕ)
    → s.hand < length s.slots
    → j < length s.slots
    → 0 < (slot_at s j).allocated
    → Ahead (length s.slots) s.hand j d
    → d + length s.slots < n
    → (evict_loop n s).1 ≡ true
evict_loop_live d zero s j h k l a lt = absurd (omega arith)
evict_loop_live zero (suc n) s j h k l a lt = elim (evict_loop-cases n s h) [
  | inl e ↦ e
  | inr (t, e, p) ↦
      let q = here (length s.slots) s.hand j h a in
      let r = p.3 (subst (λ j. 0 < (slot_at s j).allocated) (sym q) l) in
      ap (λ r. r.1) e
      ∙ evict_loop_unflagged (length s.slots - 1) n t s.hand (Passed-hand s t h p)
          (omega (arith, p.0)) (r.0) (r.1)
          (Passed-Ahead s t s.hand (length s.slots - 1) p (Ahead-turn (length s.slots) s.hand h))
          (omega arith)
]
evict_loop_live (suc d) (suc n) s j h k l a lt = elim (evict_loop-cases n s h) [
  | inl e ↦ e
  | inr (t, e, p) ↦
      let q = p.2 j (not_here (length s.slots) s.hand j d h a k) in
      ap (λ r. r.1) e
      ∙ evict_loop_live d n t j (Passed-hand s t h p) (omega (arith, p.0))
          (subst (λ x. 0 < x.allocated) (sym q) l)
          (Passed-Ahead s t j d p (Ahead-step (length s.slots) s.hand j d h k a))
          (omega (arith, p.0))
]

evict-true : (s : Shard) (j : ℕ) → IsSound s → 0 < (slot_at s j).allocated → (evict s).1 ≡ true
unfolding evict
evict-true s j h l =
    let k = live_inside s j l in
    let a = Ahead-some (length s.slots) s.hand j h.hand_inside k in
    evict_loop_live (a.0) (2 * length s.slots) s j h.hand_inside k l (a.1) (omega (arith, a.1.0))

-- `evict` on a sound shard that holds an entry succeeds, whatever second chances are set. It then
-- leaves a sound shard with one entry less, in whose table no empty slot has been filled.
pub evict-live :
    (s : Shard) (j : ℕ)
    → IsSound s
    → 0 < (slot_at s j).allocated
    → ((evict s).1 ≡ true)
      × ((evict s).0.entries + 1 ≡ s.entries)
      × IsSound (evict s).0
      × ((i : ℕ) → (slot_at s i).allocated ≡ 0 → (slot_at (evict s).0 i).allocated ≡ 0)
unfolding evict
evict-live s j h l =
    let e = evict-true s j h l in
    let w = evict_loop-Scanned (2 * length s.slots) s h in (e, w.4 e, w.0, w.3)
