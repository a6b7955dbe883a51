-- ===== src/Dhcp/Tests.antt =====
-- A lease from its discovery to its acknowledgement, its renewal, a recovery and a configuration, and
-- the theorems of the lease engine at these engines.
use dimsum.Prelude.{
  List, Option, Result, [], err, false, none, ok, panic, refl, some, stuck, true, ℕ, ◌*◌, ◌+◌, ◌∷◌,
  ◌≡◌,
}
use dimsum.Prelude.Bytes.{bytes_eq, bytes_key}
use dimsum.Prelude.Maps.{contains, delete, find, has, insert}
use dimsum.Dhcp.Address.{
  Addr, contains_addr, is_special, same_addr, same_network, usable, v4, addr_key,
}
use dimsum.Dhcp.Settings.{
  AddrText, BytesText, Reservation, Settings, all_bytes, all_labels, bad_gateway, capacity,
  client_key, hardware_key, has_suffix, lower_byte, mac_key, reservation_key, split_dots, to_lower,
  valid_domain, valid_label,
}
use dimsum.Dhcp.Settings.Validate.{
  check_address, check_hostname, check_hosts, check_key, check_network, check_pool,
  check_reservation, check_reservations, check_reserved, check_scalars, check_subnet,
  validate_settings, validate_transition,
}
use dimsum.Dhcp.Settings.Consistent.{IsConsistent, validate_settings-IsConsistent}
use dimsum.Dhcp.Lease.{
  MutationKind, Engine, Instant, Lease, LeaseState, MessageType, Mutation, Reply, Request, Token,
  no_request,
}
use dimsum.Dhcp.Engine.{
  acknowledge, candidate, candidate_in_pool, eligible, forget_name, grant, identity, mark, now,
  occupied, remove, reply, reservation, retained_topology, search_pool, second, unowned,
  valid_request,
}
use dimsum.Dhcp.Handle.{
  client_name, discover, dispatch, handle, handle_address, handle_decline, handle_discover,
  handle_owner, handle_release, handle_request, has_room, mutate_entry, pending_entry,
  probing_entry, put_target, quarantine, renewal, start_probe,
}
use dimsum.Dhcp.Complete.{
  complete_commit, complete_probe, find_entry, find_token, replace_candidate, settle_commit,
  settle_probe, settle_put, tick, tick_all, tick_entry,
}
use dimsum.Dhcp.Recovery.{
  EngineError, any_unsettled, apply, blank_engine, clear_acks, count_reservations, count_reserved,
  drop_unkept, install, install_pool, keep_entries, mark_keys, new_engine, reservation_map,
  reserved_map, restore, restore_row, restore_rows, valid_row,
}
use dimsum.Dhcp.Sound.{IsSound}
use dimsum.Dhcp.Sound.Saved.{SameSaved, saved}
use dimsum.Dhcp.Sound.Fine.{IsGranted}
use dimsum.Dhcp.Sound.Ticking.{AllKeep}
use dimsum.Dhcp.Sound.Restoring.{IsRestored, restore-IsRestored}
use dimsum.Dhcp.Sound.Events.{
  Event, Reach, Reach-IsSound, apply-SameSaved, commit_done, mutations_of, next, probe_done,
  received, recovered, reply_to, run, run-AllKeep, run-IsGranted, started,
}

program : Unit {0}
unfolding same_addr same_network contains_addr is_special usable capacity valid_label all_bytes
    to_lower lower_byte split_dots has_suffix all_labels valid_domain client_key hardware_key
    reservation_key check_subnet check_address check_pool check_key check_reserved check_hostname
    check_reservation check_reservations check_scalars check_hosts check_network validate_settings
    validate_transition bytes_eq find insert delete has contains mark now grant identity
    valid_request reservation eligible retained_topology reply acknowledge forget_name remove
    unowned occupied search_pool candidate_in_pool candidate client_name probing_entry start_probe
    has_room discover put_target pending_entry mutate_entry quarantine handle_discover renewal
    handle_owner handle_address handle_request handle_release handle_decline dispatch handle
    find_entry find_token replace_candidate settle_probe complete_probe settle_put settle_commit
    complete_commit tick_entry tick_all tick reservation_map reserved_map mark_keys install_pool
    install new_engine any_unsettled keep_entries count_reservations drop_unkept clear_acks apply
    valid_row restore_row restore_rows count_reserved restore
program = tt

-- 192.168.1.n
abbrev pub host : ℕ → ℕ
host n = 3_232_235_776 + n

abbrev address_text : ℕ → AddrText
address_text n = record { text = b'h' ∷ []; parsed = some (v4 (host n)) }

abbrev no_text : BytesText
no_text = record { text = []; parsed = none }

abbrev printer_mac : List ℕ
printer_mac = 2 ∷ 0 ∷ 0 ∷ 0 ∷ 0 ∷ 9 ∷ []

abbrev printer : Reservation
printer = record {
  id = b'p' ∷ [];
  mac = record { text = b'm' ∷ []; parsed = some printer_mac };
  client_id = no_text;
  address = address_text 9;
  hostname = b'p' ∷ b'r' ∷ [];
}

abbrev pub lan : Settings
lan = record {
  enabled = true;
  interface = b'e' ∷ b'n' ∷ b'0' ∷ [];
  server_ip = address_text 1;
  subnet = record { text = b's' ∷ []; parsed = some (record { address = v4 (host 0); bits = 24 }) };
  gateway = address_text 2;
  range_start = address_text 10;
  range_end = address_text 11;
  lease_seconds = 3600;
  local_domain = b'l' ∷ b'a' ∷ b'n' ∷ [];
  max_leases = 0;
  reservations = printer ∷ [];
}

valid_lan : validate_settings lan ≡ ok tt
unfolding program
valid_lan = refl

same_hosts : validate_settings (record lan { gateway = address_text 1 }) ≡ err bad_gateway
unfolding program
same_hosts = refl

abbrev engine_or_blank : Result EngineError Engine → Engine
engine_or_blank r = elim r [
  | ok e ↦ e
  | err x ↦ blank_engine lan
  | panic ↦ blank_engine lan
  | stuck ↦ blank_engine lan
]

abbrev fresh_engine : Engine
fresh_engine = engine_or_blank (new_engine lan 1)

starts : new_engine lan 1 ≡ ok fresh_engine
unfolding program
starts = refl

abbrev at_time : ℕ → Instant
at_time n = record { wall = 1_000_000 * second + n * second; run = n * second }

abbrev pub laptop_mac : List ℕ
laptop_mac = 2 ∷ 0 ∷ 0 ∷ 0 ∷ 0 ∷ 1 ∷ []

abbrev asks : MessageType → ℕ → Request
asks type xid = record no_request {
  type = type;
  xid = xid;
  mac = laptop_mac;
  hostname = b'L' ∷ b'a' ∷ b'p' ∷ [];
}

abbrev pub selects : Request
selects = record (asks MessageType.request 7) {
  requested_ip = v4 (host 10);
  server_id = v4 (host 1);
}

abbrev token_of : ℕ → Token
token_of n = record { generation = 1; sequence = n }

abbrev discovered : Event
discovered = received (asks MessageType.discover 7) (at_time 10)

abbrev probed : Event
probed = probe_done (record { token = token_of 1; conflict = false; failed = false }) (at_time 11)

abbrev selected : Event
selected = received selects (at_time 12)

abbrev saved_now : Event
saved_now = commit_done (record { token = token_of 2; failed = false }) (at_time 13)

abbrev probing_engine : Engine
probing_engine = run fresh_engine discovered

abbrev offering_engine : Engine
offering_engine = run probing_engine probed

abbrev pending_engine : Engine
pending_engine = run offering_engine selected

abbrev bound_engine : Engine
bound_engine = run pending_engine saved_now

fresh-Reach : Reach fresh_engine
fresh-Reach = started lan 1 starts

offering-Reach : Reach offering_engine
offering-Reach = next probed (next discovered fresh-Reach refl) refl

pending-Reach : Reach pending_engine
pending-Reach = next selected offering-Reach refl

bound-Reach : Reach bound_engine
bound-Reach = next saved_now pending-Reach refl

abbrev kind_and_address : Option Reply → Option (MessageType × Addr × ℕ)
kind_and_address none = none
kind_and_address (some r) = some (r.type, r.address, r.lease_seconds)

offers :
    kind_and_address (reply_to probing_engine probed) ≡ some (MessageType.offer, v4 (host 10), 3600)
unfolding program
offers = refl

silent_before_commit : reply_to offering_engine selected ≡ none
unfolding program
silent_before_commit = refl

acknowledges :
    kind_and_address (reply_to pending_engine saved_now)
    ≡ some (MessageType.ack, v4 (host 10), 3599)
unfolding program
acknowledges = refl

abbrev hold_of : Option Lease → Option ℕ
hold_of none = none
hold_of (some l) = some l.hold_until

holds : hold_of (saved bound_engine (v4 (host 10))) ≡ some ((at_time 3612).wall)
unfolding program
holds = refl

Reach-IsSound_example : IsSound bound_engine
Reach-IsSound_example = Reach-IsSound bound-Reach

-- The lease that the engine asks to save when the client selects the offer.
abbrev asked_put : Mutation
asked_put = record {
  token = token_of 2;
  kind = MutationKind.put_lease;
  lease = ((pending_engine).heap 0).pending;
}

asked : mutations_of offering_engine selected ≡ asked_put ∷ []
unfolding program
asked = refl

run-IsGranted_example : IsGranted (run pending_engine saved_now) (reply_to pending_engine saved_now)
run-IsGranted_example = run-IsGranted pending-Reach saved_now

-- The renewal after half an hour.
abbrev renews : Event
renews = received (record (asks MessageType.request 8) { ci_addr = v4 (host 10) }) (at_time 2000)

abbrev horizons : List Mutation → List ℕ
horizons [] = []
horizons (m ∷ ms) = m.lease.hold_until ∷ horizons ms

extends : horizons (mutations_of bound_engine renews) ≡ (at_time 5600).wall ∷ []
unfolding program
extends = refl

run-AllKeep_example : AllKeep bound_engine (mutations_of bound_engine renews)
run-AllKeep_example = run-AllKeep bound-Reach renews

-- The row of the store after a restart.
abbrev stored_row : Lease
stored_row = record {
  identity = mac_key laptop_mac;
  mac = laptop_mac;
  address = v4 (host 10);
  hostname = [];
  expiry = (at_time 3612).wall;
  hold_until = (at_time 3612).wall;
  state = LeaseState.bound;
}

abbrev restored_engine : Engine
restored_engine = engine_or_blank (restore fresh_engine (stored_row ∷ []) 0 (at_time 100))

restores : restore fresh_engine (stored_row ∷ []) 0 (at_time 100) ≡ ok restored_engine
unfolding program
restores = refl

restore-IsRestored_example : IsRestored restored_engine (stored_row ∷ [])
restore-IsRestored_example =
    restore-IsRestored fresh_engine restored_engine (stored_row ∷ []) 0 (at_time 100) restores

restored-Reach : Reach restored_engine
restored-Reach = recovered (stored_row ∷ []) 0 (at_time 100) fresh-Reach restores

-- The pool moves; the lease stays.
abbrev moved : Settings
moved = record lan { range_start = address_text 20; range_end = address_text 21 }

abbrev moved_engine : Engine
moved_engine = engine_or_blank (apply restored_engine moved 2)

applies : apply restored_engine moved 2 ≡ ok moved_engine
unfolding program
applies = refl

apply-SameSaved_example : SameSaved restored_engine moved_engine
apply-SameSaved_example = apply-SameSaved moved_engine moved 2 restored-Reach applies

validate_settings-IsConsistent_example : IsConsistent lan
validate_settings-IsConsistent_example = validate_settings-IsConsistent lan refl valid_lan
