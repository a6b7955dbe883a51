-- ===== src/Dhcp/Complete.antt =====
-- internal/dhcp/engine.go: the completions of probes and commits, and Tick.
use dimsum.Prelude.{
  Bool, List, Option, [], false, if◌then◌else◌, leb, none, not, some, true, ℕ, ◌&&◌, ◌*◌, ◌++◌, ◌+◌,
  ◌-◌, ◌==◌, ◌||◌, ◌∷◌,
}
use dimsum.Dhcp.Address.{Addr}
use dimsum.Dhcp.Lease.{
  CommitResult, Engine, Entry, Instant, LeaseState, MessageType, Mutation, MutationKind, Outcome,
  ProbeResult, Token, is_commit_pending, is_probing, is_quarantined, no_request, nothing, replies,
  same_token, store,
}
use dimsum.Dhcp.Engine.{acknowledge, forget_name, now, remove, reply, second}
use dimsum.Dhcp.Handle.{discover, mutate, quarantine}

-- The walk of `find` over the owned addresses.
unfoldable pub find_entry : (ℕ → Entry) → Token → List (Addr × ℕ) → Option ℕ
find_entry heap t [] = none
find_entry heap t ((a, p) ∷ m) = if same_token (heap p).token t then some p else find_entry heap t m

-- `find`; a token of another generation finds nothing.
unfoldable pub find_token : Engine → Token → Option ℕ
find_token e t = if t.generation == e.generation then find_entry e.heap t e.by_ip else none

abbrev pub offer_time : ℕ
offer_time = 30 * second

-- The candidate is free: it is offered for half a minute.
abbrev pub offered_entry : Entry → Instant → Entry
offered_entry v t = record v {
  lease = record v.lease {
    state = LeaseState.offered;
    expiry = t.wall + offer_time;
    hold_until = t.wall + offer_time;
  };
  timing = record { expiry = t.run + offer_time; hold = t.run + offer_time };
}

-- The candidate is in use: it is quarantined, and another one is probed for the same request.
unfoldable pub replace_candidate : Engine → ℕ → Instant → Engine × Outcome
replace_candidate e p t =
    let v = e.heap p in
    let held = quarantine e p t in
    let probed = discover held.0 v.request t (v.attempts + 1) in
    (probed.0, record held.1 { probe = probed.1.probe })

-- CompleteProbe once its entry is found.
unfoldable pub settle_probe : Engine → Bool → ProbeResult → Instant → ℕ → Engine × Outcome
settle_probe e clock_ok result t p =
    let v = e.heap p in
    let e' : Engine = record e { probes = e.probes - 1 } in
    if not (is_probing v.lease.state)
    then (e, nothing)
    else if not clock_ok || result.failed || leb v.deadline t.run
    then (remove e' p, nothing)
    else if result.conflict
    then replace_candidate e' p t
    else (
      record e' { heap = store e'.heap p (offered_entry v t) },
      replies (reply e' MessageType.offer v.lease.address v.request),
    )

unfoldable pub complete_probe : Engine → ProbeResult → Instant → Engine × Outcome
complete_probe e result t =
    let read = now e t in
    elim (find_token read.0 result.token) [
      | none ↦ (read.0, nothing)
      | some p ↦ settle_probe read.0 read.1 result t p
    ]

-- A failed commit: a quarantine stays in force, and anything else is undone.
abbrev pub undone_entry : Entry → Entry
undone_entry v =
    if v.dirty_quarantine
    then record v { lease = v.pending; timing = v.pending_timing }
    else record v { lease = v.previous; timing = v.previous_timing }

abbrev pub committed_entry : Entry → Entry
committed_entry v = record v {
  lease = v.pending;
  timing = v.pending_timing;
  durable = true;
  committed = v.pending;
  dirty_quarantine = false;
}

abbrev pub bound_entry : Entry → Entry
bound_entry v = record (committed_entry v) {
  lease = record v.pending { state = LeaseState.bound };
  has_ack = true;
  last_ack = v.request.xid;
}

abbrev pub is_discover : MessageType → Bool
is_discover MessageType.discover = true
is_discover m = false

-- A put has been committed.
unfoldable pub settle_put : Engine → Bool → Instant → ℕ → Engine × Outcome
settle_put e clock_ok t p =
    let v = e.heap p in
    let saved : Engine = record e {
      heap = store e.heap p (committed_entry v);
      by_id = forget_name e.by_id v.pending.identity p;
    } in
    let bound : Engine = record e { heap = store e.heap p (bound_entry v) } in
    if is_quarantined v.pending.state
    then if clock_ok && e.settings.enabled && is_discover v.request.type
      then discover saved v.request t 1
      else (saved, nothing)
    else if not clock_ok || leb v.pending_timing.expiry t.run || not e.settings.enabled
    then (bound, nothing)
    else (bound, acknowledge bound (bound_entry v) v.request t)

abbrev pub is_delete : Option MutationKind → Bool
is_delete (some MutationKind.delete_lease) = true
is_delete m = false

unfoldable pub settle_commit : Engine → Bool → CommitResult → Instant → ℕ → Engine × Outcome
settle_commit e clock_ok result t p =
    let v = e.heap p in
    if not (is_commit_pending v.lease.state)
    then (e, nothing)
    else if result.failed
    then (record e { heap = store e.heap p (undone_entry v) }, nothing)
    else if is_delete v.mutation
    then (remove e p, nothing)
    else settle_put e clock_ok t p

unfoldable pub complete_commit : Engine → CommitResult → Instant → Engine × Outcome
complete_commit e result t =
    let read = now e t in
    elim (find_token read.0 result.token) [
      | none ↦ (read.0, nothing)
      | some p ↦ settle_commit read.0 read.1 result t p
    ]

-- One entry of Tick's scan.
unfoldable pub tick_entry : Engine → Instant → ℕ → Engine × Outcome
tick_entry e t p =
    let v = e.heap p in
    if v.dirty_quarantine && not (is_commit_pending v.lease.state)
    then mutate e p MutationKind.put_lease v.lease v.timing no_request
    else if is_commit_pending v.lease.state
    then (e, nothing)
    else if is_probing v.lease.state
    then if leb v.deadline t.run
      then (remove (record e { probes = e.probes - 1 }) p, nothing)
      else (e, nothing)
    else if leb v.timing.hold t.run
    then if v.durable
      then mutate e p MutationKind.delete_lease v.committed v.timing no_request
      else (remove e p, nothing)
    else (e, nothing)

abbrev pub mutation_list : Outcome → List Mutation
mutation_list o = elim o.mutation [ none ↦ [] | some m ↦ m ∷ [] ]

-- The scan: an entry that it removes is the current one.
unfoldable pub tick_all : Engine → Instant → List (Addr × ℕ) → Engine × List Mutation
tick_all e t [] = (e, [])
tick_all e t ((a, p) ∷ m) =
    let one = tick_entry e t p in
    let rest = tick_all one.0 t m in (rest.0, mutation_list one.1 ++ rest.1)

unfoldable pub tick : Engine → Instant → Engine × List Mutation
tick e t = let read = now e t in if read.1 then tick_all read.0 t read.0.by_ip else (read.0, [])
