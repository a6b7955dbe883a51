-- ===== src/Resolve/Flights/Limits.antt =====
-- What the table of flights keeps: its capacities, and that a key leads to live work only.
use dimsum.Prelude.{
  ℕ, ◌+◌, ◌≤◌, ◌<◌, ◌≡◌, sym, ap, ◌∙◌, subst, ◌≢◌, ◌⊎◌, inl, inr, Bool, true, false, ◌&&◌, not,
  Option, none, some, map, arith, ◌==◌, if◌then◌else◌, Bool-cases, Option-cases, length, set,
  length-set, sum-map-set, same_or_not, get_or-set_self, get_or-set_ne, sum,
}
use dimsum.Resolve.Flights.{
  Flight, no_flight, Flights, flight_at, update, max_flights, max_waiters, max_refresh, detach,
}

abbrev pub running : Flight → ℕ
running f = if f.done then 0 else 1

abbrev pub refreshing : Flight → ℕ
refreshing f = if f.refresh && not f.done then 1 else 0

-- A flight that a caller may attach to: its worker runs, somebody wants it, and it is not cancelled
-- unless the whole table is closed.
abbrev pub IsAlive : Bool → ℕ → Flight → Type 0
IsAlive closed k f =
    (f.key ≡ k)
    × (f.done ≡ false)
    × ((f.refresh ≡ true) ⊎ (0 < f.waiters))
    × ((closed ≡ true) ⊎ (f.canceled ≡ false))

pub record IsValid (g : Flights) : Type 0 where
  pub worker_count : g.workers ≡ sum (map running g.started)
  pub refresh_count : g.refreshes ≡ sum (map refreshing g.started)
  pub worker_bound : g.workers ≤ max_flights
  pub refresh_bound : g.refreshes ≤ max_refresh
  pub waiter_bound : (i : ℕ) → (flight_at g i).waiters ≤ max_waiters
  pub inside : (k i : ℕ) → g.active k ≡ some i → i < length g.started
  pub alive : (k i : ℕ) → g.active k ≡ some i → IsAlive g.closed k (flight_at g i)

-- One flight and the map are replaced.
abbrev pub replaced : Flights → ℕ → Flight → (ℕ → Option ℕ) → ℕ → ℕ → Flights
replaced g i f active workers refreshes = record g {
  started = set g.started i f;
  active = active;
  workers = workers;
  refreshes = refreshes;
}

module _ (g : Flights) (i : ℕ) (f : Flight) (active : ℕ → Option ℕ) (workers refreshes : ℕ)
    (v : IsValid g) (lt : i < length g.started)
    (work : workers + running (flight_at g i) ≡ g.workers + running f)
    (refr : refreshes + refreshing (flight_at g i) ≡ g.refreshes + refreshing f)
    (work_le : workers ≤ g.workers) (refr_le : refreshes ≤ g.refreshes)
    (few : f.waiters ≤ max_waiters) (kept : (k j : ℕ) → active k ≡ some j → g.active k ≡ some j)
    (good : (k : ℕ) → active k ≡ some i → IsAlive g.closed k f) where
  at_self : flight_at (replaced g i f active workers refreshes) i ≡ f
  at_self = get_or-set_self g.started i f no_flight lt

  at_other : (j : ℕ) → i ≢ j → flight_at (replaced g i f active workers refreshes) j ≡ flight_at g j
  at_other j ne = get_or-set_ne g.started i j f no_flight ne

  few_all : (j : ℕ) → (flight_at (replaced g i f active workers refreshes) j).waiters ≤ max_waiters
  few_all j = elim (same_or_not i j) [
    | inl e ↦
        subst (λ j. (flight_at (replaced g i f active workers refreshes) j).waiters ≤ max_waiters) e
          (subst (λ (x : Flight). x.waiters ≤ max_waiters) (sym at_self) few)
    | inr ne ↦
        subst (λ (x : Flight). x.waiters ≤ max_waiters) (sym (at_other j ne)) (v.waiter_bound j)
  ]

  all-IsAlive :
      (k j : ℕ)
      → active k ≡ some j
      → IsAlive g.closed k (flight_at (replaced g i f active workers refreshes) j)
  all-IsAlive k j a = elim (same_or_not i j) [
    | inl e ↦
        subst (λ j. IsAlive g.closed k (flight_at (replaced g i f active workers refreshes) j)) e
          (subst (IsAlive g.closed k) (sym at_self)
            (good k (subst (λ j. active k ≡ some j) (sym e) a)))
    | inr ne ↦ subst (IsAlive g.closed k) (sym (at_other j ne)) (v.alive k j (kept k j a))
  ]

  pub replaced-IsValid : IsValid (replaced g i f active workers refreshes)
  replaced-IsValid = record {
    worker_count =
        omega (arith, work, v.worker_count, sum-map-set running g.started i f no_flight lt);
    refresh_count =
        omega (arith, refr, v.refresh_count, sum-map-set refreshing g.started i f no_flight lt);
    worker_bound = omega (arith, work_le, v.worker_bound);
    refresh_bound = omega (arith, refr_le, v.refresh_bound);
    waiter_bound = few_all;
    inside = λ k j a. omega (arith, v.inside k j (kept k j a), length-set g.started i f);
    alive = all-IsAlive;
  }

-- What `detach` leaves of the map.
pub detach-cases :
    (g : Flights) (k i : ℕ)
    → ((detach g k i ≡ g) × (g.active k ≢ some i))
      ⊎ (detach g k i ≡ record g { active = update g.active k none })
unfolding detach
detach-cases g k i = elim (Option-cases (g.active k)) [
  | inl e ↦ inl (cc, λ h. none_some (sym e ∙ h))
  | inr (j, e) ↦ elim (Bool-cases (j == i)) [
    | inl q ↦ inr (cc)
    | inr q ↦ inl (cc, λ h. other q (sym e ∙ h))
  ]
]
  where
    none_some : {j : ℕ} → ◌≡◌ {A = Option ℕ} none (some j) → ⊥
    none_some e = cc

    other : {j : ℕ} → (j == i) ≡ false → ◌≡◌ {A = Option ℕ} (some j) (some i) → ⊥
    other {j = j} q h = let e : j ≡ i = cc in ground arith

pub detach_kept :
    (g : Flights) (k i q j : ℕ)
    → (detach g k i).active q ≡ some j
    → (g.active q ≡ some j) × (q ≡ k → j ≢ i)
detach_kept g k i q j h = elim (detach-cases g k i) [
  | inl (e, n) ↦
      let a : g.active q ≡ some j = ap (λ d. d.active q) (sym e) ∙ h in
      (a, λ x y. n (subst (λ q. g.active q ≡ some i) x (a ∙ ap some y)))
  | inr e ↦
      let a : update g.active k none q ≡ some j = ap (λ d. d.active q) (sym e) ∙ h in
      (ground arith, λ x y. ground arith)
]

pub detach_fields :
    (g : Flights) (k i : ℕ) → detach g k i ≡ record g { active = (detach g k i).active }
detach_fields g k i = elim (detach-cases g k i) [
  | inl (e, n) ↦ e ∙ ap (λ a. record g { active = a }) (sym (ap (λ d. d.active) e))
  | inr e ↦ e ∙ ap (λ a. record g { active = a }) (sym (ap (λ d. d.active) e))
]
