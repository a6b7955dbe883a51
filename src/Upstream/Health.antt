-- ===== src/Upstream/Health.antt =====
-- internal/upstream/health.go: the circuit breaker of an endpoint. The clock and `random16` are
-- arguments, a time is a natural number of nanoseconds, and `none` is the zero time.
pub mod Circuit
use dimsum.Prelude.{
  ℕ, ◌+◌, ◌*◌, ◌/◌, ◌%◌, ◌^◌, min, Bool, true, false, ◌&&◌, ◌||◌, not, Option, none, some, ltb, leb,
  ◌==◌, if◌then◌else◌,
}

pub record Breaker : Type 0 where
  pub retry_at : Option ℕ
  pub latency : ℕ
  pub responses : ℕ
  pub failures : ℕ
  pub servfail : ℕ
  pub refused : ℕ
  pub consecutive : ℕ
  pub backoff : ℕ
  pub probe : Bool
  pub epoch : ℕ

-- The options that the breaker reads.
pub record Limits : Type 0 where
  pub failure_threshold : ℕ
  pub open_interval : ℕ
  pub max_backoff : ℕ

-- `claimDetailed`: the claim is granted, its epoch, and whether it is a probe.
unfoldable pub claim_detailed : ℕ → Breaker → Breaker × (Bool × ℕ × Bool)
claim_detailed now h = elim h.retry_at [
  | none ↦ (h, (true, h.epoch, false))
  | some t ↦ if h.probe || ltb now t then (h, (false, 0, false)) else (
    record h { probe = true; epoch = (h.epoch + 1) % 2 ^ 64 },
    (true, (h.epoch + 1) % 2 ^ 64, true),
  )
]

abbrev increment : Bool → ℕ → ℕ
increment true n = (n + 1) % 2 ^ 64
increment false n = n

-- The counters of `record`.
unfoldable pub count_result : Bool → Bool → ℕ → Breaker → Breaker
count_result canceled failed code h = record h {
  responses = increment (not canceled && not failed) h.responses;
  servfail = increment (not canceled && not failed && (code == 2)) h.servfail;
  refused = increment (not canceled && not failed && (code == 5)) h.refused;
  failures = increment (not canceled && failed) h.failures;
}

-- The jitter; `random` is the result of `random16`, `none` if it failed.
unfoldable pub jitter_of : ℕ → Option ℕ → ℕ
jitter_of backoff none = 0
jitter_of backoff (some n) = backoff / 10 * n % 2 ^ 64 / 65535

-- The end of `record`: the circuit is opened.
unfoldable pub open_circuit : Limits → ℕ → Option ℕ → Breaker → Breaker
open_circuit o now random h =
    let backoff = if h.backoff == 0 then o.open_interval else min (h.backoff * 2) o.max_backoff in
    record h {
      epoch = (h.epoch + 1) % 2 ^ 64;
      backoff = backoff;
      retry_at = some (now + min (backoff + jitter_of backoff random) o.max_backoff);
    }

-- `if probe || h.consecutive >= c.options.FailureThreshold`
unfoldable pub judge : Limits → ℕ → Option ℕ → Bool → Breaker → Breaker
judge o now random probe h =
    if probe || leb o.failure_threshold h.consecutive then open_circuit o now random h else h

-- The part of `record` for a completion of the current epoch.
unfoldable pub settle : Limits → ℕ → Option ℕ → ℕ → Bool → ℕ → Bool → Breaker → Breaker
settle o now random elapsed failed code probe h =
    let answered : Breaker = record h {
      consecutive = 0;
      latency = if h.latency == 0 then elapsed else (h.latency * 7 + elapsed) / 8;
    } in
    if failed
    then judge o now random probe (record h { consecutive = h.consecutive + 1 })
    else if not probe || not (code == 2 || code == 5)
    then record answered { retry_at = none; backoff = 0 }
    else judge o now random probe answered

-- `record`
unfoldable pub record_result : Limits → ℕ → Option ℕ → ℕ → ℕ → Bool → ℕ → Bool → Breaker → Breaker
record_result o now random epoch elapsed failed code canceled h =
    let counted = count_result canceled failed code h in
    if not (epoch == h.epoch)
    then counted
    else if canceled
    then record counted { probe = false }
    else settle o now random elapsed failed code h.probe (record counted { probe = false })
