-- ===== src/Resolve/Flights/Steps.antt =====
-- Every step keeps the table valid, so its capacities hold at all times.
use dimsum.Prelude.{
  ℕ, zero, suc, ◌+◌, ◌-◌, ◌≤◌, ◌<◌, ◌≡◌, refl, sym, ap, ◌∙◌, subst, ◌⊎◌, inl, inr, Bool, true,
  false, ◌&&◌, not, Option, none, some, List, [], ◌∷◌, ◌++◌, map, arith, leb, ◌==◌, if◌then◌else◌,
  Bool-cases, length, set, get_or, length-append, sum-map-set, sum-map-append, get_or-append_left,
  get_or-append_last, get_or_past, same_or_not, sum,
}
use dimsum.Resolve.Flights.{
  Flight, no_flight, Flights, flight_at, update, max_flights, max_waiters, max_refresh, detach,
  attach, finish, leave, cancel_all, close,
}
use native.Mathlib.Decide.{dec_lt}
use dimsum.Resolve.Flights.Limits.{
  detach_fields, running, refreshing, IsAlive, IsValid, replaced, replaced-IsValid, detach_kept,
}

abbrev pub empty_table : Flights
empty_table = record {
  started = [];
  active = λ k. none;
  refreshes = 0;
  workers = 0;
  closed = false;
}

pub attach-IsValid :
    (g : Flights) (k i : ℕ) (refresh : Bool)
    → IsValid g
    → g.active k ≡ some i
    → IsValid ((attach g i refresh).0)
unfolding attach
attach-IsValid g k i true v a = v
attach-IsValid g k i false v a = elim (Bool-cases (leb max_waiters (flight_at g i).waiters)) [
  | inl e ↦ rw e v
  | inr e ↦
      let f = flight_at g i in
      rw e (
        replaced-IsValid g i (record f { waiters = f.waiters + 1 }) g.active g.workers g.refreshes v
          (v.inside k i a) refl refl (omega arith) (omega arith) (ground arith) (λ q j h. h)
          (λ q h. let w = v.alive q i h in (w.0, w.1, inr (omega arith), w.3)))
]

-- A key that is detached from a flight leads elsewhere.
not_detached :
    (g h : Flights) (i q : ℕ)
    → IsValid g
    → h.active ≡ g.active
    → ¬ ((detach h (flight_at g i).key i).active q ≡ some i)
not_detached g h i q v e a =
    let w = detach_kept h (flight_at g i).key i q i a in
    let b : g.active q ≡ some i = ap (λ m. m q) (sym e) ∙ w.0 in w.1 (sym ((v.alive q i b).0)) refl

pub leave-IsValid :
    (g : Flights) (i : ℕ)
    → IsValid g
    → i < length g.started
    → 0 < (flight_at g i).waiters
    → IsValid (leave g (flight_at g i).key i)
unfolding leave
leave-IsValid g i v lt pos =
    let f = flight_at g i in
    let rest : Flight = record f { waiters = f.waiters - 1 } in
    let few : f.waiters - 1 ≤ max_waiters = omega (arith, v.waiter_bound i) in
    elim (Bool-cases (rest.waiters == 0 && not f.refresh)) [
      | inr e ↦
          let q : leave g f.key i ≡ replaced g i rest g.active g.workers g.refreshes = cc in
          subst IsValid (sym q) (
            replaced-IsValid g i rest g.active g.workers g.refreshes v lt refl refl (omega arith)
              (omega arith) few (λ a j h. h)
              (λ a h. let w = v.alive a i h in (w.0, w.1, ground arith, w.3)))
      | inl e ↦
          let h : Flights = record g {
            started = set g.started i (record rest { canceled = true });
          } in
          let d = detach h f.key i in
          let q : leave g f.key i ≡ detach h f.key i = cc in
          subst IsValid (sym (q ∙ detach_fields h f.key i)) (
            replaced-IsValid g i (record rest { canceled = true }) d.active g.workers g.refreshes v
              lt refl refl (omega arith) (omega arith) few
              (λ a j x. (detach_kept h f.key i a j x).0)
              (λ a x. absurd (not_detached g h i a v refl x)))
    ]

pub finish-IsValid :
    (g : Flights) (i : ℕ)
    → IsValid g
    → i < length g.started
    → (flight_at g i).done ≡ false
    → IsValid (finish g i)
unfolding finish
finish-IsValid g i v lt run =
    let f = flight_at g i in
    let d = detach g f.key i in
    let f' : Flight = record f { done = true; canceled = true } in
    let one : running f ≡ 1 = ground arith in
    let works = sum-map-set running g.started i no_flight no_flight lt in
    let refreshes = sum-map-set refreshing g.started i no_flight no_flight lt in
    let pos : refreshing f ≤ g.refreshes = omega (arith, refreshes, v.refresh_count) in
    let q : finish g i
        ≡ replaced g i f' d.active (g.workers - 1)
            (if f.refresh then g.refreshes - 1 else g.refreshes) =
      ap
        (λ (d : Flights). record d {
          started = set d.started i f';
          workers = d.workers - 1;
          refreshes = if f.refresh then d.refreshes - 1 else d.refreshes;
        })
        (detach_fields g f.key i) in
    subst IsValid (sym q) (
      replaced-IsValid g i f' d.active (g.workers - 1)
        (if f.refresh then g.refreshes - 1 else g.refreshes) v lt
        (omega (arith, one, works, v.worker_count)) (ground arith) (omega arith) (ground arith)
        (v.waiter_bound i) (λ a j x. (detach_kept g f.key i a j x).0)
        (λ a x. absurd (not_detached g g i a v refl x)))

module _ (g : Flights) (k : ℕ) (refresh : Bool) (v : IsValid g) (is_open : g.closed ≡ false)
    (few : g.workers < max_flights)
    (few_refresh : (refresh ≡ false) ⊎ (g.refreshes < max_refresh)) where
  abbrev pub new_flight : Flight
  new_flight = record {
    key = k;
    waiters = if refresh then 0 else 1;
    refresh = refresh;
    canceled = false;
    done = false;
  }

  abbrev pub launched : Flights
  launched = record g {
    started = g.started ++ (new_flight ∷ []);
    active = update g.active k (some (length g.started));
    refreshes = if refresh then g.refreshes + 1 else g.refreshes;
    workers = g.workers + 1;
  }

  flight_at_old : (i : ℕ) → i < length g.started → flight_at launched i ≡ flight_at g i
  flight_at_old i h = get_or-append_left g.started (new_flight ∷ []) i no_flight h

  flight_at_new : flight_at launched (length g.started) ≡ new_flight
  flight_at_new = get_or-append_last g.started new_flight no_flight

  few_waiters : (i : ℕ) → (flight_at launched i).waiters ≤ max_waiters
  few_waiters i = elim (dec_lt i (length g.started)) [
    | yes h ↦
        subst (λ (x : Flight). x.waiters ≤ max_waiters) (sym (flight_at_old i h)) (v.waiter_bound i)
    | no h ↦ elim (same_or_not (length g.started) i) [
      | inl e ↦
          subst (λ i. (flight_at launched i).waiters ≤ max_waiters) e
            (subst (λ (x : Flight). x.waiters ≤ max_waiters) (sym flight_at_new) (ground arith))
      | inr ne ↦
          let past : ¬ (i < length (g.started ++ (new_flight ∷ []))) =
            λ lt. omega (arith, h, ne, lt, length-append g.started (new_flight ∷ [])) in
          subst (λ (x : Flight). x.waiters ≤ max_waiters)
            (sym (get_or_past (g.started ++ (new_flight ∷ [])) i no_flight past)) (omega arith)
    ]
  ]

  -- The map leads to the new flight, or as before.
  active_cases :
      (a i : ℕ)
      → launched.active a ≡ some i
      → ((a ≡ k) × (length g.started ≡ i)) ⊎ (g.active a ≡ some i)
  active_cases a i h = elim (Bool-cases (a == k)) [
    | inl e ↦ inl (ground arith, ground arith)
    | inr e ↦ inr (ground arith)
  ]

  launched_inside : (a i : ℕ) → launched.active a ≡ some i → i < length launched.started
  launched_inside a i h =
      let n = length-append g.started (new_flight ∷ []) in
      elim (active_cases a i h) [
        | inl c ↦ omega (arith, n, c.1)
        | inr c ↦ omega (arith, n, v.inside a i c)
      ]

  launched-IsAlive :
      (a i : ℕ) → launched.active a ≡ some i → IsAlive g.closed a (flight_at launched i)
  launched-IsAlive a i h = elim (active_cases a i h) [
    | inl c ↦
        subst (λ i. IsAlive g.closed a (flight_at launched i)) (c.1)
          (subst (IsAlive g.closed a) (sym flight_at_new) (sym (c.0), refl, wanted, inr refl))
    | inr c ↦ subst (IsAlive g.closed a) (sym (flight_at_old i (v.inside a i c))) (v.alive a i c)
  ]
    where
      wanted : (refresh ≡ true) ⊎ (0 < new_flight.waiters)
      wanted = elim (Bool-cases refresh) [ inl e ↦ inl e | inr e ↦ inr (ground arith) ]

  pub launched-IsValid : IsValid launched
  launched-IsValid = record {
    worker_count =
        omega (arith, v.worker_count, sum-map-append running g.started (new_flight ∷ []));
    refresh_count =
        let one = sum-map-append refreshing g.started (new_flight ∷ []) in
        let all = v.refresh_count in ground arith;
    worker_bound = omega arith;
    refresh_bound = let all = v.refresh_bound in ground arith;
    waiter_bound = few_waiters;
    inside = launched_inside;
    alive = launched-IsAlive;
  }

-- `cancel_all` changes nothing but `canceled`.
cancel_all_same :
    (active : ℕ → Option ℕ) (fs : List Flight) (i j : ℕ)
    → let f = get_or (cancel_all active fs i) j no_flight in
      let f' = get_or fs j no_flight in
      (f.key ≡ f'.key) × (f.waiters ≡ f'.waiters) × (f.refresh ≡ f'.refresh) × (f.done ≡ f'.done)
unfolding cancel_all
cancel_all_same active [] i j = (refl, refl, refl, refl)
cancel_all_same active (f ∷ fs) i zero = (refl, refl, refl, refl)
cancel_all_same active (f ∷ fs) i (suc j) = cancel_all_same active fs (i + 1) j

cancel_all_sums :
    (active : ℕ → Option ℕ) (fs : List Flight) (i : ℕ)
    → (sum (map running (cancel_all active fs i)) ≡ sum (map running fs))
      × (sum (map refreshing (cancel_all active fs i)) ≡ sum (map refreshing fs))
      × (length (cancel_all active fs i) ≡ length fs)
unfolding cancel_all
cancel_all_sums active [] i = (refl, refl, refl)
cancel_all_sums active (f ∷ fs) i =
    let r = cancel_all_sums active fs (i + 1) in
    (omega (arith, r.0), omega (arith, r.1), omega (arith, r.2))

pub close-IsValid : (g : Flights) → IsValid g → IsValid (close g)
unfolding close
close-IsValid g v =
    let s = cancel_all_sums g.active g.started 0 in
    record {
      worker_count = v.worker_count ∙ sym (s.0);
      refresh_count = v.refresh_count ∙ sym (s.1);
      worker_bound = v.worker_bound;
      refresh_bound = v.refresh_bound;
      waiter_bound =
          λ i. omega (arith, v.waiter_bound i, (cancel_all_same g.active g.started 0 i).1);
      inside = λ k i h. omega (arith, v.inside k i h, s.2);
      alive = λ k i h.
          let w = v.alive k i h in
          let c = cancel_all_same g.active g.started 0 i in
          (
            c.0 ∙ w.0,
            c.3 ∙ w.1,
            elim (w.2) [ inl r ↦ inl (c.2 ∙ r) | inr r ↦ inr (omega (arith, r, c.1)) ],
            inl refl,
          );
    }
