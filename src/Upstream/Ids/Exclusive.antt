-- ===== src/Upstream/Ids/Exclusive.antt =====
-- An identifier has one holder at a time.
use dimsum.Prelude.{
  get_or-set_ne, ℕ, ◌<◌, ◌≡◌, sym, ap, ◌∙◌, subst, ◌≢◌, true, false, Option, some, get_or, Result,
  ok, err, panic, stuck,
}
use dimsum.Upstream.Ids.{id_count, IdError, Ids, acquire, release}
use dimsum.Upstream.Ids.Fresh.{Acquired, acquire-Acquired}

-- A sequence of steps in which the identifier `id` is not released.
pub data Holding (id : ℕ) : Ids → Ids → Type 0 where
  same : (p : Ids) → Holding id p p
  then_acquires :
      (p q : Ids) (now start : ℕ)
      → start < id_count
      → Holding id ((acquire p now (some start)).0) q
      → Holding id p q
  then_releases :
      (p q : Ids) (now other quarantine : ℕ)
      → other ≢ id
      → Holding id (release p now other quarantine) q
      → Holding id p q

below :
    {start : ℕ}
    → start < id_count
    → (s : ℕ) → ◌≡◌ {A = Option ℕ} (some start) (some s)
    → s < id_count
below {start = start} h s e = let q : start ≡ s = cc in subst (λ s. s < id_count) q h

acquire_active :
    (p : Ids) (now start id : ℕ)
    → start < id_count
    → get_or p.active id false ≡ true
    → get_or ((acquire p now (some start)).0).active id false ≡ true
acquire_active p now start id h a =
    kept (acquire p now (some start)) (acquire-Acquired p now (some start) (below h))
  where
    differ : true ≡ false → ⊥
    differ e = cc

    kept :
        (r : Ids × Result IdError ℕ)
        → Acquired p now (some start) r
        → get_or r.0.active id false ≡ true
    kept (q, ok other) w =
        let ne : other ≢ id =
          λ e. differ (sym a ∙ subst (λ k. get_or p.active k false ≡ false) e (w.1.0)) in
        ap (λ l. get_or l id false) (w.3) ∙ get_or-set_ne p.active other id true false ne ∙ a
    kept (q, err IdError.overloaded) w = ap (λ q. get_or q.active id false) (w.0) ∙ a
    kept (q, err IdError.random_failed) w = ap (λ q. get_or q.active id false) (w.0) ∙ a
    kept (q, panic) w = absurd w
    kept (q, stuck) w = absurd w

Holding-active :
    (id : ℕ) (p q : Ids)
    → Holding id p q
    → get_or p.active id false ≡ true
    → get_or q.active id false ≡ true
unfolding release
Holding-active id _ _ (same p) a = a
Holding-active id _ _ (then_acquires p q now start h rest) a =
    Holding-active id _ q rest (acquire_active p now start id h a)
Holding-active id _ _ (then_releases p q now other quarantine ne rest) a =
    Holding-active id _ q rest (get_or-set_ne p.active other id false false ne ∙ a)

-- Whatever other exchanges do in between, an identifier in use is not handed out again before it is
-- released. The random number is below 65536.
pub acquire-Holding :
    (id other : ℕ) (p q r : Ids) (now start : ℕ)
    → get_or p.active id false ≡ true
    → Holding id p q
    → start < id_count
    → acquire q now (some start) ≡ (r, ok other)
    → other ≢ id
acquire-Holding id other p q r now start a w h e same_id =
    let k = subst (Acquired q now (some start)) e (acquire-Acquired q now (some start) (below h)) in
    differ (
      sym (Holding-active id p q w a)
      ∙ subst (λ k. get_or q.active k false ≡ false) same_id (k.1.0))
  where
    differ : true ≡ false → ⊥
    differ e = cc
