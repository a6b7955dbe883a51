-- ===== src/Dhcp/Handle.antt =====
-- internal/dhcp/engine.go: discover, mutate, quarantine and Handle. Each returns the engine that it
-- leaves and the outcome.
use dimsum.Prelude.{
  Bool, List, Option, [], false, if◌then◌else◌, leb, ltb, max, none, not, some, true, ℕ, ◌%◌, ◌&&◌,
  ◌*◌, ◌+◌, ◌-◌, ◌/◌, ◌==◌, ◌^◌, ◌||◌,
}
use dimsum.Prelude.Bytes.{bytes_eq, bytes_key}
use dimsum.Prelude.Maps.{find, has, insert}
use dimsum.Dhcp.Address.{Addr, contains_addr, invalid, is_valid, nonzero, same_addr, addr_key}
use dimsum.Dhcp.Settings.{capacity, must_parse_addr, to_lower, valid_label}
use dimsum.Dhcp.Lease.{
  Deadlines, Engine, Entry, Instant, Lease, LeaseState, MessageType, MutationKind, Outcome, Request,
  entry_of, is_bound, is_commit_pending, is_offered, is_probing, no_request, nothing, replies,
  store,
}
use dimsum.Dhcp.Engine.{
  acknowledge, candidate, eligible, forget_name, grant, identity, mark, next_token, now, occupied,
  remove, reply, second, valid_request,
}

abbrev pub probe_timeout : ℕ
probe_timeout = 2 * second

-- The validated client name, or the old one.
unfoldable pub client_name : List ℕ → List ℕ → List ℕ
client_name old hostname = let name = to_lower hostname in if valid_label name then name else old

-- The entry of a new candidate.
unfoldable pub probing_entry : Engine → Request → Instant → ℕ → Addr → Entry
probing_entry e r t attempt a =
    record (entry_of (record {
      identity = identity r;
      mac = r.mac;
      address = a;
      hostname = client_name [] r.hostname;
      expiry = 0;
      hold_until = 0;
      state = LeaseState.probing;
    })) { request = r; token = next_token e; deadline = t.run + probe_timeout; attempts = attempt }

abbrev pub with_probe : Engine → Request → Instant → ℕ → Addr → Engine
with_probe e r t attempt a = record e {
  sequence = (e.sequence + 1) % 2 ^ 64;
  heap = store e.heap e.fresh (probing_entry e r t attempt a);
  fresh = e.fresh + 1;
  by_ip = insert a e.fresh e.by_ip;
  by_id = insert (identity r) e.fresh e.by_id;
  probes = e.probes + 1;
}

unfoldable pub start_probe : Engine → Request → Instant → ℕ → Addr → Engine × Outcome
start_probe e r t attempt a = (
  mark (with_probe e r t attempt a) a true,
  record {
    reply = none;
    probe = some (record { token = next_token e; address = a; deadline = t.run + probe_timeout });
    mutation = none;
  },
)

-- A fresh address must leave room for itself, unless it is reserved and so already counted.
unfoldable pub has_room : Engine → Addr → Bool
has_room e a = elim (find a e.by_ip) [
  | some p ↦ true
  | none ↦ leb (occupied e + (if has a e.reserved then 0 else 1)) (capacity e.settings)
]

unfoldable pub discover : Engine → Request → Instant → ℕ → Engine × Outcome
discover e r t attempt =
    let a = candidate e r in
    if leb 2 e.probes || ltb 3 attempt || not (is_valid a) || not (has_room e a)
    then (e, nothing)
    else start_probe e r t attempt a

-- The wall time of a monotonic deadline, at the last reading of the clock.
abbrev pub wall_hold : Engine → ℕ → ℕ
wall_hold e hold = elim e.last_time [ none ↦ hold | some l ↦ l.wall + hold - l.run ]

-- A put never shortens the ownership horizon.
unfoldable pub put_target : Engine → MutationKind → Lease → Deadlines → Lease
put_target e MutationKind.delete_lease l timing = l
put_target e MutationKind.put_lease l timing = record l {
  hold_until = max l.hold_until (wall_hold e timing.hold);
}

unfoldable pub pending_entry : Engine → Entry → MutationKind → Lease → Deadlines → Request → Entry
pending_entry e v kind target timing r = record v {
  previous = v.lease;
  previous_timing = v.timing;
  pending = target;
  pending_timing = timing;
  lease = record v.lease { state = LeaseState.commit_pending };
  token = next_token e;
  mutation = some kind;
  request = r;
}

-- `mutate` on the pointer `p`, whose entry is `v` by now.
unfoldable pub mutate_entry :
    Engine → ℕ → Entry → MutationKind → Lease → Deadlines → Request → Engine × Outcome
mutate_entry e p v kind target timing r =
    let target' = put_target e kind target timing in
    (
      record e {
        sequence = (e.sequence + 1) % 2 ^ 64;
        heap = store e.heap p (pending_entry e v kind target' timing r);
      },
      record {
        reply = none;
        probe = none;
        mutation = some (record { token = next_token e; kind = kind; lease = target' });
      },
    )

abbrev pub mutate : Engine → ℕ → MutationKind → Lease → Deadlines → Request → Engine × Outcome
mutate e p kind target timing r = mutate_entry e p (e.heap p) kind target timing r

-- v.request = r
abbrev pub set_request : Engine → ℕ → Request → Engine
set_request e p r = record e { heap = store e.heap p (record (e.heap p) { request = r }) }

-- v.deadline = d
abbrev pub set_deadline : Engine → ℕ → ℕ → Engine
set_deadline e p d = record e { heap = store e.heap p (record (e.heap p) { deadline = d }) }

abbrev pub quarantine_time : ℕ
quarantine_time = 600 * second

-- The identity's name is given up unless its committed row is bound.
abbrev pub release_name : Engine → ℕ → Engine
release_name e p =
    let v = e.heap p in
    if not v.durable || not (is_bound v.committed.state)
    then record e { by_id = forget_name e.by_id v.lease.identity p }
    else e

unfoldable pub quarantine : Engine → ℕ → Instant → Engine × Outcome
quarantine e p t =
    let held = grant (e.heap p) t quarantine_time in
    mutate_entry (release_name e p) p (record (e.heap p) { dirty_quarantine = true })
      MutationKind.put_lease (record held.0 { state = LeaseState.quarantined }) held.1 no_request

-- netip.MustParsePrefix(e.settings.Subnet).Contains(a)
abbrev pub in_subnet : Engine → Addr → Bool
in_subnet e a = elim e.settings.subnet.parsed [ none ↦ false | some p ↦ contains_addr p a ]

-- Outcome{Reply: e.reply(NAK, netip.Addr{}, r)}
abbrev pub refuse : Engine → Request → Outcome
refuse e r = replies (reply e MessageType.nak invalid r)

unfoldable pub handle_discover : Engine → Request → Instant → Option ℕ → Engine × Outcome
handle_discover e r t none = discover e r t 1
handle_discover e r t (some p) =
    let v = e.heap p in
    if is_bound v.lease.state || is_offered v.lease.state
    then if not (eligible e r v.lease.address)
      then if not v.durable
        then discover (remove e p) r t 1
        else mutate e p MutationKind.put_lease (record v.lease { state = LeaseState.quarantined })
            v.timing r
      else (set_request e p r, replies (reply e MessageType.offer v.lease.address r))
    else if is_probing v.lease.state
    then (set_request e p r, nothing)
    else (e, nothing)

-- The new grant of a request.
unfoldable pub renewal : Engine → Entry → Request → Instant → Lease × Deadlines
renewal e v r t =
    let granted = grant v t (e.settings.lease_seconds * second) in
    (
      record granted.0 {
        mac = r.mac;
        hostname = client_name v.lease.hostname r.hostname;
        state = LeaseState.bound;
      },
      granted.1,
    )

-- An ACK for the same request phase is repeated before the renewal boundary.
abbrev pub is_replay : Engine → Entry → Request → Instant → Bool
is_replay e v r t =
    is_bound v.lease.state
    && v.has_ack
    && v.last_ack == r.xid
    && same_addr v.request.ci_addr r.ci_addr
    && ltb (t.run + e.settings.lease_seconds * second / 2) v.timing.expiry

unfoldable pub handle_owner : Engine → Request → Instant → Addr → ℕ → Engine × Outcome
handle_owner e r t a p =
    let v = e.heap p in
    let target = renewal e v r t in
    let out = mutate e p MutationKind.put_lease target.0 target.1 r in
    if nonzero r.server_id && is_offered v.lease.state && not (v.request.xid == r.xid)
    then (e, nothing)
    else if not (eligible e r a)
    then (e, refuse e r)
    else if is_offered v.lease.state && not (nonzero r.server_id)
    then (e, nothing)
    else if is_replay e v r t
    then (e, acknowledge e v r t)
    else (set_deadline out.0 p (t.run + e.settings.lease_seconds * second), out.1)

-- The identity's entry, if it holds the address as an offer or a binding.
abbrev pub owner_of : Engine → Addr → Option ℕ → Option ℕ
owner_of e a none = none
owner_of e a (some p) =
    let l = (e.heap p).lease in
    if not (same_addr l.address a) || (not (is_bound l.state) && not (is_offered l.state))
    then none
    else some p

-- Whether the address has an entry, of the identity or of another one.
abbrev pub held_by : Engine → Addr → List ℕ → Bool
held_by e a id = elim (find a e.by_ip) [
  | none ↦ false
  | some q ↦ bytes_eq (e.heap q).lease.identity id
]

abbrev pub held_by_other : Engine → Addr → List ℕ → Bool
held_by_other e a id = elim (find a e.by_ip) [
  | none ↦ false
  | some q ↦ not (bytes_eq (e.heap q).lease.identity id)
]

unfoldable pub handle_address : Engine → Request → Instant → Option ℕ → Addr → Engine × Outcome
handle_address e r t v a =
    if not (nonzero a)
    then (e, nothing)
    else if not (in_subnet e a) || (held_by e a (identity r) && not (eligible e r a))
    then (e, refuse e r)
    else elim (owner_of e a v) [
      | some p ↦ handle_owner e r t a p
      | none ↦
          if not (in_subnet e a) || held_by_other e a (identity r)
          then (e, refuse e r)
          else (e, nothing)
    ]

unfoldable pub handle_request : Engine → Request → Instant → Option ℕ → Engine × Outcome
handle_request e r t v =
    if nonzero r.ci_addr
    then if nonzero r.requested_ip || nonzero r.server_id
      then (e, nothing)
      else handle_address e r t v r.ci_addr
    else handle_address e r t v r.requested_ip

unfoldable pub handle_release : Engine → Request → Option ℕ → Engine × Outcome
handle_release e r none = (e, nothing)
handle_release e r (some p) =
    let v = e.heap p in
    if not (is_bound v.lease.state) || not (same_addr r.ci_addr v.lease.address)
    then (e, nothing)
    else mutate e p MutationKind.delete_lease v.committed v.timing r

unfoldable pub handle_decline : Engine → Request → Instant → Option ℕ → Engine × Outcome
handle_decline e r t none = (e, nothing)
handle_decline e r t (some p) =
    let l = (e.heap p).lease in
    if not (same_addr r.server_id (must_parse_addr e.settings.server_ip))
      || not (same_addr l.address r.requested_ip)
      || (not (is_bound l.state) && not (is_offered l.state))
    then (e, nothing)
    else quarantine e p t

-- The switch on the message's type.
unfoldable pub dispatch : Engine → Request → Instant → Option ℕ → MessageType → Engine × Outcome
dispatch e r t v MessageType.discover = handle_discover e r t v
dispatch e r t v MessageType.request = handle_request e r t v
dispatch e r t v MessageType.release = handle_release e r v
dispatch e r t v MessageType.decline = handle_decline e r t v
dispatch e r t v MessageType.inform =
    (e, if nonzero r.ci_addr then replies (reply e MessageType.ack invalid r) else nothing)
dispatch e r t v type = (e, nothing)

-- A commit is pending, or the ownership has run out and waits for Tick.
abbrev pub must_wait : Engine → Instant → Option ℕ → Bool
must_wait e t none = false
must_wait e t (some p) =
    let v = e.heap p in
    is_commit_pending v.lease.state
    || ((is_offered v.lease.state || is_bound v.lease.state) && leb v.timing.hold t.run)

unfoldable pub handle : Engine → Request → Instant → Engine × Outcome
handle e r t =
    let read = now e t in
    let e' = read.0 in
    let v = find (identity r) e'.by_id in
    if not read.1 || not e'.settings.enabled || not (valid_request r)
    then (e', nothing)
    else if nonzero r.server_id
        && not (same_addr r.server_id (must_parse_addr e'.settings.server_ip))
    then (e', nothing)
    else if must_wait e' t v
    then (e', nothing)
    else dispatch e' r t v r.type
