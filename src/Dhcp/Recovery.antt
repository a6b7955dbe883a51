-- ===== src/Dhcp/Recovery.antt =====
-- internal/dhcp/engine.go: NewEngine, install, Apply, Restore, Leases and DurableLeases.
use dimsum.Prelude.{
  Bool, List, Option, Result, [], err, false, get_or, guard, if◌then◌else◌, leb, length, ltb, none,
  not, ok, panic, replicate, some, stuck, take, true, ℕ, ◌%◌, ◌&&◌, ◌*◌, ◌+◌, ◌-◌, ◌/◌, ◌==◌, ◌>>=◌,
  ◌>>◌, ◌||◌, ◌∷◌,
}
use dimsum.Prelude.Bytes.{bytes_eq, bytes_key}
use dimsum.Prelude.Maps.{find, has, insert}
use dimsum.Dhcp.Address.{
  Addr, invalid, is4, is_loopback, is_multicast, is_reserved_class, is_unspecified, v4, v6,
  addr_key,
}
use dimsum.Dhcp.Settings.{
  Reservation, Settings, SettingsError, capacity, id_key, is_empty, mac_key, must_parse_addr,
  reservation_key, valid_label, zero_mac,
}
use dimsum.Dhcp.Settings.Validate.{validate_settings, validate_transition}
use dimsum.Dhcp.Lease.{
  Engine, Entry, Instant, Lease, entry_of, is_bound, is_commit_pending, is_quarantined, no_lease,
  store,
}
use dimsum.Dhcp.Engine.{mark, remove, retained_topology}

-- The error names its cause; a refused call changes nothing.
pub data EngineError : Type 0 where
  invalid_settings : SettingsError → EngineError
  zero_generation old_generation mutation_pending topology_conflict : EngineError
  reservation_conflict over_capacity used_engine clock_behind : EngineError
  invalid_lease invalid_horizon duplicate_identity : EngineError

abbrev pub as_engine_error : Result SettingsError (Unit {0}) → Result EngineError (Unit {0})
as_engine_error (ok x) = ok x
as_engine_error (err e) = err (invalid_settings e)
as_engine_error panic = panic
as_engine_error stuck = stuck

-- `k, _ := reservationKey(r)`
abbrev pub key_of : Reservation → List ℕ
key_of r = elim (reservation_key r) [ ok k ↦ k | err e ↦ [] | panic ↦ [] | stuck ↦ [] ]

unfoldable pub reservation_map :
    List (List ℕ × Reservation) → List Reservation → List (List ℕ × Reservation)
reservation_map m [] = m
reservation_map m (r ∷ rs) = reservation_map (insert (key_of r) r m) rs

unfoldable pub reserved_map : List (Addr × List ℕ) → List Reservation → List (Addr × List ℕ)
reserved_map m [] = m
reserved_map m (r ∷ rs) = reserved_map (insert (must_parse_addr r.address) (key_of r) m) rs

-- e.mark(ip, true) for every key of a map
unfoldable pub mark_keys : {V : Type 0} → Engine → List (Addr × V) → Engine
mark_keys e [] = e
mark_keys e ((a, v) ∷ m) = mark_keys (mark e a true) m

-- The bits of `make([]uint64, (end-start+64)/64)`
abbrev pub pool_bits : ℕ → ℕ → List Bool
pool_bits start end = replicate ((end - start + 64) / 64 * 64) false

unfoldable pub install_pool : Engine → Option Addr → Option Addr → Engine
install_pool e (some (v4 a)) (some (v4 b)) =
    let sized : Engine = record e { start = a; end = b; bitmap = pool_bits a b } in
    mark_keys (mark_keys sized sized.reserved) sized.by_ip
install_pool e a b = record e { start = 0; end = 0; bitmap = [] }

unfoldable pub install : Engine → Settings → ℕ → Engine
install e s g =
    install_pool
      (record e {
        settings = s;
        generation = g;
        reservations = reservation_map [] s.reservations;
        reserved = reserved_map [] s.reservations;
      })
      s.range_start.parsed s.range_end.parsed

-- The engine before its first install.
abbrev pub blank_engine : Settings → Engine
blank_engine s = record {
  settings = s;
  generation = 0;
  sequence = 0;
  last_time = none;
  suspended = false;
  heap = λ _. entry_of no_lease;
  fresh = 0;
  by_ip = [];
  by_id = [];
  reservations = [];
  reserved = [];
  bitmap = [];
  start = 0;
  end = 0;
  probes = 0;
}

unfoldable pub new_engine : Settings → ℕ → Result EngineError Engine
new_engine s g = do
  as_engine_error (validate_settings s)
  guard (not (g == 0)) zero_generation
  ok (install (blank_engine s) s g)

unfoldable pub any_unsettled : (ℕ → Entry) → List (Addr × ℕ) → Bool
any_unsettled heap [] = false
any_unsettled heap ((a, p) ∷ m) =
    is_commit_pending (heap p).lease.state || (heap p).dirty_quarantine || any_unsettled heap m

abbrev pub is_kept : Entry → Bool
is_kept v = v.durable || is_quarantined v.lease.state

-- The durable and quarantined ownership, whose topology must fit the new settings.
unfoldable pub keep_entries :
    (ℕ → Entry) → Settings → List (Addr × ℕ) → Result EngineError (List (Addr × ℕ))
keep_entries heap s [] = ok []
keep_entries heap s ((a, p) ∷ m) =
    let rest = keep_entries heap s m in
    if is_kept (heap p)
    then guard (retained_topology s (heap p).lease) topology_conflict
      >> (rest >>= λ k. ok ((a, p) ∷ k))
    else rest

-- The reservation's key is the lease's identity or its MAC address.
abbrev pub matches_lease : List ℕ → Lease → Bool
matches_lease key l = bytes_eq key l.identity || bytes_eq key (mac_key l.mac)

unfoldable pub count_reservations :
    (ℕ → Entry) → List (Addr × ℕ) → ℕ → List Reservation → Result EngineError ℕ
count_reservations heap keep n [] = ok n
count_reservations heap keep n (r ∷ rs) = elim (find (must_parse_addr r.address) keep) [
  | none ↦ count_reservations heap keep (n + 1) rs
  | some p ↦
      guard (matches_lease (key_of r) (heap p).lease) reservation_conflict
      >> count_reservations heap keep n rs
]

unfoldable pub drop_unkept : List (Addr × ℕ) → Engine → List (Addr × ℕ) → Engine
drop_unkept keep e [] = e
drop_unkept keep e ((a, p) ∷ m) =
    drop_unkept keep (if has (e.heap p).lease.address keep then e else remove e p) m

-- v.hasACK = false for every owned entry
unfoldable pub clear_acks : Engine → List (Addr × ℕ) → Engine
clear_acks e [] = e
clear_acks e ((a, p) ∷ m) =
    clear_acks (record e { heap = store e.heap p (record (e.heap p) { has_ack = false }) }) m

unfoldable pub apply : Engine → Settings → ℕ → Result EngineError Engine
apply e s g = do
  guard (ltb e.generation g) old_generation
  as_engine_error (validate_transition e.settings s)
  guard (not (any_unsettled e.heap e.by_ip)) mutation_pending
  keep ← keep_entries e.heap s e.by_ip
  n ← count_reservations e.heap keep (length keep) s.reservations
  guard (leb n (capacity s)) over_capacity
  let dropped = drop_unkept keep e e.by_ip
  let cleared = clear_acks (record dropped { probes = 0 }) dropped.by_ip
  ok (install cleared s g)

-- The checks on one recovered row, before its horizon.
unfoldable pub valid_row : List (Addr × ℕ) → Lease → Bool
valid_row ips l =
    (bytes_eq (take 3 l.identity) (id_key [])
        && ltb 3 (length l.identity)
        && leb (length l.identity) 258
      || bytes_eq l.identity (mac_key l.mac))
    && not (bytes_eq l.mac zero_mac)
    && not (get_or l.mac 0 0 % 2 == 1)
    && is4 l.address
    && not (is_unspecified l.address)
    && not (is_multicast l.address)
    && not (is_loopback l.address)
    && not (is_reserved_class l.address)
    && not (l.expiry == 0)
    && leb (length l.hostname) 63
    && (is_empty l.hostname || valid_label l.hostname)
    && (is_bound l.state || is_quarantined l.state)
    && not (has l.address ips)

-- The recovered entry; its deadlines are as far away as the wall times.
abbrev pub restored_entry : Instant → Lease → Entry
restored_entry t l = record (entry_of l) {
  durable = true;
  committed = l;
  timing = record { expiry = t.run + l.expiry - t.wall; hold = t.run + l.hold_until - t.wall };
}

-- The maps and the heap that recovery builds.
pub record Recovered : Type 0 where
  pub heap : ℕ → Entry
  pub fresh : ℕ
  pub ips : List (Addr × ℕ)
  pub ids : List (List ℕ × ℕ)

unfoldable pub restore_row : Settings → Instant → Recovered → Lease → Result EngineError Recovered
restore_row s t m l = do
  guard (valid_row m.ips l) invalid_lease
  guard (not (l.hold_until == 0 || ltb l.hold_until l.expiry)) invalid_horizon
  guard (retained_topology s l) topology_conflict
  guard (not (is_bound l.state && has l.identity m.ids)) duplicate_identity
  ok (record {
    heap = store m.heap m.fresh (restored_entry t l);
    fresh = m.fresh + 1;
    ips = insert l.address m.fresh m.ips;
    ids = if is_bound l.state then insert l.identity m.fresh m.ids else m.ids;
  })

unfoldable pub restore_rows :
    Settings → Instant → Recovered → List Lease → Result EngineError Recovered
restore_rows s t m [] = ok m
restore_rows s t m (l ∷ ls) = restore_row s t m l >>= λ m'. restore_rows s t m' ls

unfoldable pub count_reserved : Recovered → ℕ → List (Addr × List ℕ) → Result EngineError ℕ
count_reserved m n [] = ok n
count_reserved m n ((a, key) ∷ rs) = elim (find a m.ips) [
  | none ↦ count_reserved m (n + 1) rs
  | some p ↦
      guard (matches_lease key (m.heap p).lease) reservation_conflict >> count_reserved m n rs
]

unfoldable pub restore : Engine → List Lease → ℕ → Instant → Result EngineError Engine
restore e leases last_known t = do
  guard (length e.by_ip == 0 && e.sequence == 0) used_engine
  guard (leb last_known t.wall) clock_behind
  guard (leb (length leases) (capacity e.settings)) over_capacity
  m ←
      restore_rows e.settings t (record { heap = e.heap; fresh = e.fresh; ips = []; ids = [] })
        leases
  n ← count_reserved m (length m.ips) e.reserved
  guard (leb n (capacity e.settings)) over_capacity
  ok (
      mark_keys
        (record e {
          heap = m.heap;
          fresh = m.fresh;
          by_ip = m.ips;
          by_id = m.ids;
          last_time = some t;
        })
        m.ips)

-- Addr.Less of net/netip
abbrev pub addr_less : Addr → Addr → Bool
addr_less invalid invalid = false
addr_less invalid b = true
addr_less (v4 m) invalid = false
addr_less (v4 m) (v4 n) = ltb m n
addr_less (v4 m) (v6 n) = true
addr_less (v6 m) invalid = false
addr_less (v6 m) (v4 n) = false
addr_less (v6 m) (v6 n) = ltb m n

-- sort.Slice by address; an owned address occurs once, so the order is determined.
unfoldable pub insert_lease : Lease → List Lease → List Lease
insert_lease l [] = l ∷ []
insert_lease l (x ∷ xs) =
    if addr_less l.address x.address then l ∷ x ∷ xs else x ∷ insert_lease l xs

unfoldable pub owned_leases : (ℕ → Entry) → List (Addr × ℕ) → List Lease
owned_leases heap [] = []
owned_leases heap ((a, p) ∷ m) = insert_lease (heap p).lease (owned_leases heap m)

unfoldable pub leases : Engine → List Lease
leases e = owned_leases e.heap e.by_ip

unfoldable pub committed_leases : (ℕ → Entry) → List (Addr × ℕ) → List Lease
committed_leases heap [] = []
committed_leases heap ((a, p) ∷ m) =
    let rest = committed_leases heap m in
    if (heap p).durable then insert_lease (heap p).committed rest else rest

unfoldable pub durable_leases : Engine → List Lease
durable_leases e = committed_leases e.heap e.by_ip
