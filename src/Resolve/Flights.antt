-- ===== src/Resolve/Flights.antt =====
-- internal/resolve/inflight.go: the table of shared resolutions. A flight's pointer is its index in
-- the list of all flights that were ever started, and keys are compared only, so a number stands
-- for one. A flight's outcome (its wire and error) and the callback `prepare` do not matter here.
pub mod Limits
pub mod Steps
pub mod Reach
use dimsum.Prelude.{
  ℕ, ◌+◌, ◌-◌, Bool, true, false, ◌&&◌, ◌||◌, not, Option, none, some, List, [], ◌∷◌, ◌++◌, leb,
  ◌==◌, if◌then◌else◌, length, set, get_or, Result, ok, err, done,
}

abbrev pub max_flights : ℕ
max_flights = 128

abbrev pub max_waiters : ℕ
max_waiters = 64

abbrev pub max_refresh : ℕ
max_refresh = 16

pub data FlightError : Type 0 where
  closed_table flight_full : FlightError

-- `key` is the key that the flight's worker captures; `done` says that its channel is closed.
pub record Flight : Type 0 where
  pub key : ℕ
  pub waiters : ℕ
  pub refresh : Bool
  pub canceled : Bool
  pub done : Bool

abbrev pub no_flight : Flight
no_flight = record { key = 0; waiters = 0; refresh = false; canceled = true; done = true }

pub record Flights : Type 0 where
  pub started : List Flight
  pub active : ℕ → Option ℕ
  pub refreshes : ℕ
  pub workers : ℕ
  pub closed : Bool

abbrev pub flight_at : Flights → ℕ → Flight
flight_at g i = get_or g.started i no_flight

-- `m[k] = v`, and `delete(m, k)` for `none`.
abbrev pub update : (ℕ → Option ℕ) → ℕ → Option ℕ → ℕ → Option ℕ
update m k v q = if q == k then v else m q

-- `if g.active[k] == f { delete(g.active, k) }`
unfoldable pub detach : Flights → ℕ → ℕ → Flights
detach g k i = elim (g.active k) [
  | none ↦ g
  | some j ↦ if j == i then record g { active = update g.active k none } else g
]

-- A caller attaches to a flight that is under way.
unfoldable pub attach : Flights → ℕ → Bool → Flights × Result FlightError (ℕ × Bool)
attach g i refresh =
    let f = flight_at g i in
    if refresh
    then (g, ok (i, true))
    else if leb max_waiters f.waiters
    then (g, err FlightError.flight_full)
    else (
      record g { started = set g.started i (record f { waiters = f.waiters + 1 }) },
      ok (i, true),
    )

-- A new flight and its worker.
unfoldable pub launch : Flights → ℕ → Bool → Flights × Result FlightError (ℕ × Bool)
launch g k refresh =
    let i = length g.started in
    let f : Flight = record {
      key = k;
      waiters = if refresh then 0 else 1;
      refresh = refresh;
      canceled = false;
      done = false;
    } in
    (
      record g {
        started = g.started ++ (f ∷ []);
        active = update g.active k (some i);
        refreshes = if refresh then g.refreshes + 1 else g.refreshes;
        workers = g.workers + 1;
      },
      ok (i, false),
    )

-- `joinStatus`: the flight, and whether it was under way already.
unfoldable pub join_status : Flights → ℕ → Bool → Flights × Result FlightError (ℕ × Bool)
join_status g k refresh =
    if g.closed then (g, err FlightError.closed_table) else elim (g.active k) [
      | some i ↦ attach g i refresh
      | none ↦
          if leb max_flights g.workers || (refresh && leb max_refresh g.refreshes)
          then (g, err FlightError.flight_full)
          else launch g k refresh
    ]

-- The end of a flight's worker; `defer cancel()` included.
unfoldable pub finish : Flights → ℕ → Flights
finish g i =
    let f = flight_at g i in
    let d = detach g f.key i in
    record d {
      started = set d.started i (record f { done = true; canceled = true });
      workers = d.workers - 1;
      refreshes = if f.refresh then d.refreshes - 1 else d.refreshes;
    }

-- The deferred end of `wait`.
unfoldable pub leave : Flights → ℕ → ℕ → Flights
leave g k i =
    let f = flight_at g i in
    let rest : Flight = record f { waiters = f.waiters - 1 } in
    if rest.waiters == 0 && not f.refresh
    then detach (record g { started = set g.started i (record rest { canceled = true }) }) k i
    else record g { started = set g.started i rest }

-- `for _, f := range g.active { f.cancel() }` over the flights from index `i` on.
unfoldable pub cancel_all : (ℕ → Option ℕ) → List Flight → ℕ → List Flight
cancel_all active [] i = []
cancel_all active (f ∷ fs) i =
    let hit = elim (active f.key) as (λ o. Bool) [ none ↦ false | some j ↦ j == i ] in
    record f { canceled = f.canceled || hit } ∷ cancel_all active fs (i + 1)

-- `close`, before it waits for the workers.
unfoldable pub close : Flights → Flights
close g = record g { closed = true; started = cancel_all g.active g.started 0 }
