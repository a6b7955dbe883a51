-- ===== src/Upstream/Tests.antt =====
-- Runs of the identifier table, and its theorems at concrete tables.
use dimsum.Prelude.{
  ℕ, ◌≤◌, ◌<◌, ◌≡◌, refl, ◌≢◌, true, false, Option, none, some, [], ◌∷◌, arith, ok,
}
use dimsum.Upstream.Ids.{id_count, Ids, search, acquire, release}
use dimsum.Upstream.Ids.Fresh.{Acquired, acquire-Acquired}
use dimsum.Upstream.Ids.Exclusive.{Holding, acquire-Holding}
use dimsum.Upstream.Health.{
  Breaker, Limits, claim_detailed, count_result, jitter_of, open_circuit, judge, settle,
  record_result,
}
use dimsum.Upstream.Health.Circuit.{IsSettled, record_result-IsSettled, claim_detailed_once}

program : Unit {0}
unfolding search acquire release claim_detailed count_result jitter_of open_circuit judge settle
    record_result
program = tt

-- Identifier 0 is in use, identifier 1 is in quarantine until time 9.
abbrev table : Ids
table = record { until = 0 ∷ 9 ∷ 0 ∷ []; active = true ∷ false ∷ false ∷ [] }

abbrev next_table : Ids
next_table = record { until = 0 ∷ 9 ∷ 0 ∷ []; active = true ∷ false ∷ true ∷ [] }

skips_two : acquire table 5 (some 0) ≡ (next_table, ok 2)
unfolding program
skips_two = refl

after_quarantine : (acquire table 9 (some 0)).1 ≡ ok 1
unfolding program
after_quarantine = refl

wraps : (search table 5 65_535 2 1) ≡ none
unfolding program
wraps = refl

zero_below : {s : ℕ} → ◌≡◌ {A = Option ℕ} (some 0) (some s) → s < id_count
zero_below {s = s} e = let q : 0 ≡ s = cc in omega (arith, q)

acquire-Acquired_example : Acquired table 5 (some 0) (acquire table 5 (some 0))
acquire-Acquired_example = acquire-Acquired table 5 (some 0) (λ s e. zero_below e)

acquire-Holding_example : ◌≢◌ {A = ℕ} 2 0
acquire-Holding_example =
    acquire-Holding 0 2 table table next_table 5 0 refl (Holding.same table) (omega arith) skips_two

abbrev limits : Limits
limits = record { failure_threshold = 2; open_interval = 10; max_backoff = 60 }

abbrev healthy : Breaker
healthy = record {
  retry_at = none;
  latency = 0;
  responses = 0;
  failures = 0;
  servfail = 0;
  refused = 0;
  consecutive = 0;
  backoff = 0;
  probe = false;
  epoch = 0;
}

-- Two failures at time 100 open the circuit; a probe is granted at time 110.
abbrev failing : Breaker
failing = record_result limits 100 none 0 5 true 0 false healthy

abbrev opened : Breaker
opened = record_result limits 100 none 0 5 true 0 false failing

opened_until : opened.retry_at ≡ some 110
unfolding program
opened_until = refl

no_probe_before : (claim_detailed 109 opened).1.0 ≡ false
unfolding program
no_probe_before = refl

-- The probe is answered: the circuit is closed again.
closed_again :
    (record_result limits 111 none 2 5 false 0 false ((claim_detailed 110 opened).0)).retry_at
    ≡ none
unfolding program
closed_again = refl

record_result-IsSettled_example : IsSettled limits failing
record_result-IsSettled_example =
    record_result-IsSettled limits 100 none 0 5 0 true false healthy (omega arith)
      (λ e. (refl, omega arith))

claim_detailed_once_example :
    (110 ≤ 115)
    × (opened.probe ≡ false)
    × ((claim_detailed 200 ((claim_detailed 115 opened).0)).1.0 ≡ false)
unfolding program
claim_detailed_once_example = claim_detailed_once 115 200 110 opened refl refl
