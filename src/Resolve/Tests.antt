-- ===== src/Resolve/Tests.antt =====
-- Runs of the flight table, and its theorems after concrete histories.
use dimsum.Prelude.{◌≡◌, refl, true, false, arith, ok, err}
use dimsum.Resolve.Flights.{
  FlightError, Flights, flight_at, detach, attach, launch, join_status, finish, leave, cancel_all,
  close,
}
use dimsum.Resolve.Flights.Limits.{IsValid}
use dimsum.Resolve.Flights.Steps.{empty_table}
use dimsum.Resolve.Flights.Reach.{Step, Reach, IsLive, Reach-IsValid, join_status-IsLive}

program : Unit {0}
unfolding detach attach launch join_status finish leave cancel_all close
program = tt

-- A caller asks for key 7 and gives up; a second caller starts a new flight for the key.
abbrev asked : Flights
asked = (join_status empty_table 7 false).0

abbrev abandoned : Flights
abandoned = leave asked (flight_at asked 0).key 0

abandoned_canceled : (flight_at abandoned 0).canceled ≡ true
unfolding program
abandoned_canceled = refl

second_flight : (join_status abandoned 7 false).1 ≡ ok (1, false)
unfolding program
second_flight = refl

shared_flight : (join_status asked 7 false).1 ≡ ok (0, true)
unfolding program
shared_flight = refl

after_close : (join_status (close asked) 7 false).1 ≡ err FlightError.closed_table
unfolding program
after_close = refl

asked-Reach : Reach asked
asked-Reach = Reach.next Reach.start (Step.joins empty_table 7 false)

abandoned-Reach : Reach abandoned
unfolding program
abandoned-Reach = Reach.next asked-Reach (Step.leaves asked 0 (omega arith) (omega arith))

Reach-IsValid_example : IsValid abandoned
Reach-IsValid_example = Reach-IsValid abandoned-Reach

join_status-IsLive_example : IsLive 7 (flight_at ((join_status abandoned 7 false).0) 1)
unfolding program
join_status-IsLive_example =
    join_status-IsLive abandoned ((join_status abandoned 7 false).0) 7 1 false false abandoned-Reach
      refl
