-- ===== src/Upstream/Health/Circuit.antt =====
-- When the circuit is closed, open or being probed.
use dimsum.Prelude.{
  ℕ, ◌+◌, ◌%◌, ◌^◌, ◌≤◌, ◌<◌, min, ◌≡◌, refl, sym, ap, ◌∙◌, subst, inl, inr, Bool, true, false,
  ◌||◌, not, Option, none, some, arith, ltb, leb, ◌==◌, Bool-cases, Option-cases,
}
use dimsum.Upstream.Health.{
  Breaker, Limits, claim_detailed, count_result, open_circuit, judge, settle, record_result,
}

-- A closed circuit has no probe under way and fewer failures in a row than the threshold.
abbrev pub IsSettled : Limits → Breaker → Type 0
IsSettled o h = (h.retry_at ≡ none → (h.probe ≡ false) × (h.consecutive < o.failure_threshold))

pub claim-IsSettled :
    (o : Limits) (now : ℕ) (h : Breaker) → IsSettled o h → IsSettled o ((claim_detailed now h).0)
unfolding claim_detailed
claim-IsSettled o now h s e = elim (Option-cases h.retry_at) [
  | inl z ↦
      let q : (claim_detailed now h).0 ≡ h = ap (λ r. r.0) (closed z) in
      subst (λ k. (k.probe ≡ false) × (k.consecutive < o.failure_threshold)) (sym q) (s z)
  | inr (t, z) ↦
      let q : ((claim_detailed now h).0).retry_at ≡ some t = ground arith in
      absurd (differ (sym q ∙ e))
]
  where
    closed : h.retry_at ≡ none → claim_detailed now h ≡ (h, (true, h.epoch, false))
    closed z = cc

    differ : {t : ℕ} → ◌≡◌ {A = Option ℕ} (some t) none → ⊥
    differ e = cc

judge-IsSettled :
    (o : Limits) (now : ℕ) (random : Option ℕ) (probe : Bool) (h : Breaker)
    → h.probe ≡ false
    → IsSettled o (judge o now random probe h)
unfolding judge open_circuit
judge-IsSettled o now random probe h p e =
    elim (Bool-cases (probe || leb o.failure_threshold h.consecutive)) [
      | inl b ↦
          let q : judge o now random probe h ≡ open_circuit o now random h = ground arith in
          absurd (differ (sym (ap (λ k. k.retry_at) q) ∙ e))
      | inr b ↦
          let q : judge o now random probe h ≡ h = ground arith in
          subst (λ k. (k.probe ≡ false) × (k.consecutive < o.failure_threshold)) (sym q)
            (p, ground arith)
    ]
  where
    differ : {t : ℕ} → ◌≡◌ {A = Option ℕ} (some t) none → ⊥
    differ e = cc

settle-IsSettled :
    (o : Limits) (now : ℕ) (random : Option ℕ) (elapsed code : ℕ) (failed probe : Bool)
    (h : Breaker)
    → 0 < o.failure_threshold
    → h.probe ≡ false
    → IsSettled o (settle o now random elapsed failed code probe h)
unfolding settle
settle-IsSettled o now random elapsed code true probe h pos p =
    judge-IsSettled o now random probe (record h { consecutive = h.consecutive + 1 }) p
settle-IsSettled o now random elapsed code false probe h pos p =
    elim (Bool-cases (not probe || not (code == 2 || code == 5))) [
      | inl b ↦ rw b (λ e. (p, pos))
      | inr b ↦ rw b (judge-IsSettled o now random probe _ p)
    ]

-- Each completion, late, cancelled, failed or answered, keeps the circuit settled: while it is
-- closed there is no probe under way and there were fewer failures in a row than the threshold. The
-- threshold is positive.
pub record_result-IsSettled :
    (o : Limits) (now : ℕ) (random : Option ℕ) (epoch elapsed code : ℕ) (failed canceled : Bool)
    (h : Breaker)
    → 0 < o.failure_threshold
    → IsSettled o h
    → IsSettled o (record_result o now random epoch elapsed failed code canceled h)
unfolding record_result count_result
record_result-IsSettled o now random epoch elapsed code failed canceled h pos s =
    elim (Bool-cases (epoch == h.epoch)) [
      | inr e ↦ rw e s
      | inl e ↦ elim (Bool-cases canceled) [
        | inl c ↦ rw (e, c) (λ z. (refl, (s z).1))
        | inr c ↦
            rw (e, c)
              (settle-IsSettled o now random elapsed code failed h.probe
                (record (count_result false failed code h) { probe = false }) pos refl)
      ]
    ]

-- An open circuit grants a claim only when its time has come and no probe is under way, and while
-- the granted probe is under way it grants no other, whatever the time.
pub claim_detailed_once :
    (now later t : ℕ) (h : Breaker)
    → h.retry_at ≡ some t
    → (claim_detailed now h).1.0 ≡ true
    → (t ≤ now)
      × (h.probe ≡ false)
      × ((claim_detailed later ((claim_detailed now h).0)).1.0 ≡ false)
unfolding claim_detailed
claim_detailed_once now later t h e g = elim (Bool-cases (h.probe || ltb now t)) [
  | inl b ↦ let q : (claim_detailed now h).1.0 ≡ false = ground arith in absurd (differ (sym g ∙ q))
  | inr b ↦
      let q : (claim_detailed now h).0 ≡ record h { probe = true; epoch = (h.epoch + 1) % 2 ^ 64 } =
        ground arith in
      (ground arith, ground arith, ground arith)
]
  where
    differ : true ≡ false → ⊥
    differ e = cc

-- The circuit is open, from its interval on and at most for the longest interval.
abbrev pub Reopened : Limits → ℕ → Breaker → Type 0
Reopened o now h =
    (t : ℕ) × (h.retry_at ≡ some t)
    × (now + min h.backoff o.max_backoff ≤ t)
    × (t ≤ now + o.max_backoff)
