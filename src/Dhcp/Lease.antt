-- ===== src/Dhcp/Lease.antt =====
-- internal/dhcp/engine.go: the requests, leases and entries of the lease engine, and its state. A
-- text is its bytes and a MAC address a list of six. An entry's pointer is its index on a heap, since
-- the two maps of the engine share entries. A time is read twice: `wall` is UnixNano, which leases
-- keep, and `run` the monotonic reading, which deadlines keep; both are natural numbers of
-- nanoseconds from an origin before every instant that occurs. The optional `runtimeClock` of tests
-- is not set.
use dimsum.Prelude.{Bool, List, Option, [], false, if◌then◌else◌, none, some, true, ℕ, ◌&&◌, ◌==◌}
use dimsum.Dhcp.Address.{Addr, invalid}
use dimsum.Dhcp.Settings.{Reservation, Settings, zero_mac}

-- `unset` is 0, and `other` any number that is no message type.
pub data MessageType : Type 0 where
  unset discover offer request decline ack nak release inform : MessageType
  other : ℕ → MessageType

pub data LeaseState : Type 0 where
  offered probing commit_pending bound quarantined : LeaseState

pub record Request : Type 0 where
  pub type : MessageType
  pub xid : ℕ
  pub mac : List ℕ
  pub client_id : List ℕ
  pub hostname : List ℕ
  pub requested_ip : Addr
  pub server_id : Addr
  pub ci_addr : Addr
  pub relay_ip : Addr
  pub broadcast : Bool
  pub max_message_size : ℕ
  pub requested_options : ℕ → Bool

-- Request{}
abbrev pub no_request : Request
no_request = record {
  type = MessageType.unset;
  xid = 0;
  mac = zero_mac;
  client_id = [];
  hostname = [];
  requested_ip = invalid;
  server_id = invalid;
  ci_addr = invalid;
  relay_ip = invalid;
  broadcast = false;
  max_message_size = 0;
  requested_options = λ _. false;
}

pub record Reply : Type 0 where
  pub type : MessageType
  pub address : Addr
  pub request : Request
  pub lease_seconds : ℕ

pub record Token : Type 0 where
  pub generation : ℕ
  pub sequence : ℕ

abbrev pub same_token : Token → Token → Bool
same_token s t = s.generation == t.generation && s.sequence == t.sequence

pub record Instant : Type 0 where
  pub wall : ℕ
  pub run : ℕ

pub record Probe : Type 0 where
  pub token : Token
  pub address : Addr
  pub deadline : ℕ

-- `failed` is Err != nil.
pub record ProbeResult : Type 0 where
  pub token : Token
  pub conflict : Bool
  pub failed : Bool

pub data MutationKind : Type 0 where
  put_lease delete_lease : MutationKind

pub record Lease : Type 0 where
  pub identity : List ℕ
  pub mac : List ℕ
  pub address : Addr
  pub hostname : List ℕ
  pub expiry : ℕ
  pub hold_until : ℕ
  pub state : LeaseState

pub record Mutation : Type 0 where
  pub token : Token
  pub kind : MutationKind
  pub lease : Lease

pub record CommitResult : Type 0 where
  pub token : Token
  pub failed : Bool

pub record Outcome : Type 0 where
  pub reply : Option Reply
  pub probe : Option Probe
  pub mutation : Option Mutation

-- Outcome{}
abbrev pub nothing : Outcome
nothing = record { reply = none; probe = none; mutation = none }

abbrev pub replies : Reply → Outcome
replies r = record { reply = some r; probe = none; mutation = none }

-- Monotonic readings.
pub record Deadlines : Type 0 where
  pub expiry : ℕ
  pub hold : ℕ

pub record Entry : Type 0 where
  pub lease : Lease
  pub timing : Deadlines
  pub previous_timing : Deadlines
  pub pending_timing : Deadlines
  pub request : Request
  pub token : Token
  pub deadline : ℕ
  pub attempts : ℕ
  pub durable : Bool
  pub committed : Lease
  pub dirty_quarantine : Bool
  pub previous : Lease
  pub pending : Lease
  pub mutation : Option MutationKind
  pub last_ack : ℕ
  pub has_ack : Bool

-- Lease{}, where no state is set; the fields that hold it are read only after they are written.
abbrev pub no_lease : Lease
no_lease = record {
  identity = [];
  mac = zero_mac;
  address = invalid;
  hostname = [];
  expiry = 0;
  hold_until = 0;
  state = LeaseState.probing;
}

abbrev pub no_deadlines : Deadlines
no_deadlines = record { expiry = 0; hold = 0 }

-- &entry{lease: l}
abbrev pub entry_of : Lease → Entry
entry_of l = record {
  lease = l;
  timing = no_deadlines;
  previous_timing = no_deadlines;
  pending_timing = no_deadlines;
  request = no_request;
  token = record { generation = 0; sequence = 0 };
  deadline = 0;
  attempts = 0;
  durable = false;
  committed = no_lease;
  dirty_quarantine = false;
  previous = no_lease;
  pending = no_lease;
  mutation = none;
  last_ack = 0;
  has_ack = false;
}

-- `heap` holds the entries below `fresh`. The words of the bitmap are written out as their bits.
-- `last_time` is `none` before the clock is first read.
pub record Engine : Type 0 where
  pub settings : Settings
  pub generation : ℕ
  pub sequence : ℕ
  pub last_time : Option Instant
  pub suspended : Bool
  pub heap : ℕ → Entry
  pub fresh : ℕ
  pub by_ip : List (Addr × ℕ)
  pub by_id : List (List ℕ × ℕ)
  pub reservations : List (List ℕ × Reservation)
  pub reserved : List (Addr × List ℕ)
  pub bitmap : List Bool
  pub start : ℕ
  pub end : ℕ
  pub probes : ℕ

-- *p = v
abbrev pub store : (ℕ → Entry) → ℕ → Entry → ℕ → Entry
store heap p v q = if q == p then v else heap q

abbrev pub is_bound : LeaseState → Bool
is_bound LeaseState.bound = true
is_bound s = false

abbrev pub is_offered : LeaseState → Bool
is_offered LeaseState.offered = true
is_offered s = false

abbrev pub is_probing : LeaseState → Bool
is_probing LeaseState.probing = true
is_probing s = false

abbrev pub is_commit_pending : LeaseState → Bool
is_commit_pending LeaseState.commit_pending = true
is_commit_pending s = false

abbrev pub is_quarantined : LeaseState → Bool
is_quarantined LeaseState.quarantined = true
is_quarantined s = false
