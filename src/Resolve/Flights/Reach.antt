-- ===== src/Resolve/Flights/Reach.antt =====
-- The table under any interleaving of joins, finished workers, leaving waiters and closing.
use dimsum.Prelude.{
  ℕ, ◌+◌, ◌<◌, ◌≡◌, refl, sym, ◌∙◌, subst, ◌⊎◌, inl, inr, Bool, true, false, ◌&&◌, ◌||◌, Option,
  none, some, arith, leb, if◌then◌else◌, Bool-cases, Option-cases, length, set, get_or-append_last,
  get_or-set_self, Result, ok, err,
}
use dimsum.Resolve.Flights.{
  FlightError, Flight, no_flight, Flights, flight_at, max_flights, max_waiters, max_refresh, attach,
  launch, join_status, finish, leave, close,
}
use dimsum.Resolve.Flights.Limits.{IsAlive, IsValid}
use dimsum.Resolve.Flights.Steps.{
  empty_table, attach-IsValid, leave-IsValid, finish-IsValid, close-IsValid, launched-IsValid,
}

-- Each step holds the lock. A worker ends once, and a waiter leaves a flight that it waits for.
pub data Step : Flights → Flights → Type 0 where
  joins : (g : Flights) (k : ℕ) (refresh : Bool) → Step g ((join_status g k refresh).0)
  finishes :
      (g : Flights) (i : ℕ)
      → i < length g.started
      → (flight_at g i).done ≡ false
      → Step g (finish g i)
  leaves :
      (g : Flights) (i : ℕ)
      → i < length g.started
      → 0 < (flight_at g i).waiters
      → Step g (leave g (flight_at g i).key i)
  closes : (g : Flights) → Step g (close g)

pub data Reach : Flights → Type 0 where
  start : Reach empty_table
  next : {g h : Flights} → Reach g → Step g h → Reach h

-- The three outcomes of a join.
join-cases :
    (g : Flights) (k : ℕ) (refresh : Bool)
    → ((x : FlightError) × (join_status g k refresh ≡ (g, err x)))
      ⊎ ((i : ℕ) × (g.closed ≡ false)
          × (g.active k ≡ some i)
          × (join_status g k refresh ≡ attach g i refresh))
      ⊎ ((g.closed ≡ false)
          × (g.workers < max_flights)
          × ((refresh ≡ false) ⊎ (g.refreshes < max_refresh))
          × (join_status g k refresh ≡ launch g k refresh))
unfolding join_status
join-cases g k refresh = elim (Bool-cases g.closed) [
  | inl c ↦ inl (FlightError.closed_table, shut c)
  | inr c ↦ elim (Option-cases (g.active k)) [
    | inr (i, a) ↦ inr (inl (i, c, a, joined i c a))
    | inl a ↦
        elim (Bool-cases (leb max_flights g.workers || (refresh && leb max_refresh g.refreshes))) [
          | inl b ↦ inl (FlightError.flight_full, full c a b)
          | inr b ↦ inr (inr (c, ground arith, room b, fresh c a b))
        ]
  ]
]
  where
    room :
        (leb max_flights g.workers || (refresh && leb max_refresh g.refreshes)) ≡ false
        → (refresh ≡ false) ⊎ (g.refreshes < max_refresh)
    room b = elim (Bool-cases refresh) [ inl e ↦ inr (ground arith) | inr e ↦ inl e ]

    shut : g.closed ≡ true → join_status g k refresh ≡ (g, err FlightError.closed_table)
    shut c = cc

    joined :
        (i : ℕ)
        → g.closed ≡ false
        → g.active k ≡ some i
        → join_status g k refresh ≡ attach g i refresh
    joined i c a = cc

    full :
        g.closed ≡ false
        → g.active k ≡ none
        → (leb max_flights g.workers || (refresh && leb max_refresh g.refreshes)) ≡ true
        → join_status g k refresh ≡ (g, err FlightError.flight_full)
    full c a b = cc

    fresh :
        g.closed ≡ false
        → g.active k ≡ none
        → (leb max_flights g.workers || (refresh && leb max_refresh g.refreshes)) ≡ false
        → join_status g k refresh ≡ launch g k refresh
    fresh c a b = cc

empty_table-IsValid : IsValid empty_table
empty_table-IsValid = record {
  worker_count = refl;
  refresh_count = refl;
  worker_bound = omega arith;
  refresh_bound = omega arith;
  waiter_bound = λ i. omega arith;
  inside = λ k i h. absurd (none_some h);
  alive = λ k i h. absurd (none_some h);
}
  where
    none_some : {j : ℕ} → ◌≡◌ {A = Option ℕ} none (some j) → ⊥
    none_some e = cc

join-IsValid :
    (g : Flights) (k : ℕ) (refresh : Bool) → IsValid g → IsValid ((join_status g k refresh).0)
unfolding launch
join-IsValid g k refresh v = elim (join-cases g k refresh) [
  | inl (x, e) ↦ subst (λ r. IsValid r.0) (sym e) v
  | inr (inl (i, c, a, e)) ↦ subst (λ r. IsValid r.0) (sym e) (attach-IsValid g k i refresh v a)
  | inr (inr (c, w, r, e)) ↦ subst (λ r. IsValid r.0) (sym e) (launched-IsValid g k refresh v c w r)
]

Step-IsValid : {g h : Flights} → Step g h → IsValid g → IsValid h
Step-IsValid (joins g k refresh) v = join-IsValid g k refresh v
Step-IsValid (finishes g i lt run) v = finish-IsValid g i v lt run
Step-IsValid (leaves g i lt pos) v = leave-IsValid g i v lt pos
Step-IsValid (closes g) v = close-IsValid g v

-- Whatever callers and workers do and in whatever order, the counters are the numbers of running
-- workers and of running refreshes, at most 128 workers and 16 refreshes run, no flight has more
-- than 64 waiters, and every key of the map leads to a flight for that key whose worker runs, which
-- somebody waits for or which is a refresh, and which is not cancelled unless the table is closed.
pub Reach-IsValid : {g : Flights} → Reach g → IsValid g
Reach-IsValid start = empty_table-IsValid
Reach-IsValid (next r s) = Step-IsValid s (Reach-IsValid r)

-- A flight for the key `k` that is worth waiting for.
abbrev pub IsLive : ℕ → Flight → Type 0
IsLive k f =
    (f.key ≡ k) × (f.done ≡ false) × (f.canceled ≡ false) × ((f.refresh ≡ true) ⊎ (0 < f.waiters))

alive-IsLive :
    (g : Flights) (k : ℕ) (f : Flight) → g.closed ≡ false → IsAlive g.closed k f → IsLive k f
alive-IsLive g k f c a =
    (a.0, a.1, elim (a.3) [ inl e ↦ absurd (differ (sym c ∙ e)) | inr e ↦ e ], a.2)
  where
    differ : false ≡ true → ⊥
    differ e = cc

-- The result of a join, by its cases.
abbrev Joined : ℕ → Flights × Result FlightError (ℕ × Bool) → Type 0
Joined k (h, ok (i, shared)) = IsLive k (flight_at h i)
Joined k (h, _) = Unit

attach-Joined :
    (g : Flights) (k i : ℕ) (refresh : Bool)
    → i < length g.started
    → IsLive k (flight_at g i)
    → Joined k (attach g i refresh)
unfolding attach
attach-Joined g k i true lt w = w
attach-Joined g k i false lt w = elim (Bool-cases (leb max_waiters (flight_at g i).waiters)) [
  | inl e ↦ subst (Joined k) (sym (full e)) tt
  | inr e ↦
      let f = flight_at g i in
      let f' : Flight = record f { waiters = f.waiters + 1 } in
      subst (Joined k) (sym (room e)) (
        subst (IsLive k) (sym (get_or-set_self g.started i f' no_flight lt))
          (w.0, w.1, w.2, inr (omega arith)))
]
  where
    full :
        leb max_waiters (flight_at g i).waiters ≡ true
        → attach g i false ≡ (g, err FlightError.flight_full)
    full e = cc

    room :
        leb max_waiters (flight_at g i).waiters ≡ false
        → attach g i false ≡ (
          record g {
            started =
                set g.started i (record (flight_at g i) { waiters = (flight_at g i).waiters + 1 });
          },
          ok (i, true),
        )
    room e = cc

launch-Joined : (g : Flights) (k : ℕ) (refresh : Bool) → Joined k (launch g k refresh)
unfolding launch
launch-Joined g k refresh =
    subst (IsLive k) (sym (get_or-append_last g.started _ no_flight)) (refl, refl, refl, wanted)
  where
    wanted : (refresh ≡ true) ⊎ (0 < (if refresh then 0 else 1))
    wanted = elim (Bool-cases refresh) [ inl e ↦ inl e | inr e ↦ inr (ground arith) ]

join_status-Joined :
    (g : Flights) (k : ℕ) (refresh : Bool) → IsValid g → Joined k (join_status g k refresh)
join_status-Joined g k refresh v = elim (join-cases g k refresh) [
  | inl (x, e) ↦ subst (Joined k) (sym e) tt
  | inr (inl (i, c, a, e)) ↦ subst (Joined k) (sym e) (
      attach-Joined g k i refresh (v.inside k i a)
        (alive-IsLive g k (flight_at g i) c (v.alive k i a)))
  | inr (inr (c, w, r, e)) ↦ subst (Joined k) (sym e) (launch-Joined g k refresh)
]

-- A caller that joins the table after any history gets a flight for its own key whose worker still
-- runs, that is not cancelled, and that somebody waits for or that is a refresh, so it never
-- attaches to abandoned work.
pub join_status-IsLive :
    (g h : Flights) (k i : ℕ) (refresh shared : Bool)
    → Reach g
    → join_status g k refresh ≡ (h, ok (i, shared))
    → IsLive k (flight_at h i)
join_status-IsLive g h k i refresh shared r e =
    subst (Joined k) e (join_status-Joined g k refresh (Reach-IsValid r))
