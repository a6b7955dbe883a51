-- ===== src/Dhcp/Engine.antt =====
-- internal/dhcp/engine.go: the lease engine up to Handle's helpers. A method takes the engine first
-- and returns the engine that it leaves. Maps are walked in the order of insertion, where Go's order
-- is open. A pointer is nil as `none`.
use dimsum.Prelude.{
  Bool, List, Option, [], false, get_or, if◌then◌else◌, leb, length, ltb, max, none, not, set, some,
  suc, true, zero, ℕ, ◌%◌, ◌&&◌, ◌+◌, ◌-◌, ◌/◌, ◌==◌, ◌^◌, ◌||◌, ◌∷◌,
}
use dimsum.Prelude.Bytes.{bytes_eq, bytes_key}
use dimsum.Prelude.Maps.{delete, find, has}
use dimsum.Dhcp.Address.{
  Addr, invalid, ipv4_number, is4, is_unspecified, is_valid, number_ipv4, same_addr, usable,
  addr_key,
}
use dimsum.Dhcp.Settings.{
  Reservation, Settings, capacity, id_key, is_empty, mac_key, must_parse_addr, zero_mac,
}
use dimsum.Dhcp.Lease.{
  Deadlines, Engine, Entry, Instant, Lease, MessageType, Outcome, Reply, Request, Token, nothing,
  replies,
}

-- The bit of an address of the pool, and whether it has one.
abbrev pub in_pool : Engine → Addr → Bool
in_pool e a = leb e.start (ipv4_number a) && leb (ipv4_number a) e.end

abbrev pub is_set : List Bool → Bool
is_set [] = false
is_set (b ∷ bs) = true

abbrev pub bit_of : Engine → Addr → ℕ
bit_of e a = ipv4_number a - e.start

unfoldable pub mark : Engine → Addr → Bool → Engine
mark e a used =
    if not (is_set e.bitmap) || not (is4 a) || not (in_pool e a)
    then e
    else if used
    then record e { bitmap = set e.bitmap (bit_of e a) true }
    else if has a e.reserved
    then e
    else record e { bitmap = set e.bitmap (bit_of e a) false }

-- The clock is read at `t`; false means that it went back.
unfoldable pub now : Engine → Instant → Engine × Bool
now e t =
    if elim e.last_time [ none ↦ false | some l ↦ ltb t.wall l.wall ]
    then (record e { suspended = true }, false)
    else (record e { last_time = some t; suspended = false }, true)

unfoldable pub grant : Entry → Instant → ℕ → Lease × Deadlines
grant v t duration = (
  record v.lease { expiry = t.wall + duration },
  record { expiry = t.run + duration; hold = max v.timing.hold (t.run + duration) },
)

-- e.token(), which also counts the sequence up.
abbrev pub next_token : Engine → Token
next_token e = record { generation = e.generation; sequence = (e.sequence + 1) % 2 ^ 64 }

unfoldable pub identity : Request → List ℕ
identity r = if is_empty r.client_id then mac_key r.mac else id_key r.client_id

abbrev pub is_ipv4_or_absent : Addr → Bool
is_ipv4_or_absent a = not (is_valid a) || is4 a

unfoldable pub valid_request : Request → Bool
valid_request r =
    if ltb 255 (length r.client_id)
      || ltb 63 (length r.hostname)
      || get_or r.mac 0 0 % 2 == 1
      || bytes_eq r.mac zero_mac
      || (is_valid r.relay_ip && not (is_unspecified r.relay_ip))
      || not (is_ipv4_or_absent r.requested_ip)
      || not (is_ipv4_or_absent r.server_id)
      || not (is_ipv4_or_absent r.ci_addr)
    then false
    else r.max_message_size == 0 || leb 576 r.max_message_size

-- By the client identifier if there is one, or else by the MAC address.
unfoldable pub reservation : Engine → Request → Option Reservation
reservation e r =
    let by_mac = find (mac_key r.mac) e.reservations in
    if is_empty r.client_id
    then by_mac
    else elim (find (id_key r.client_id) e.reservations) [ none ↦ by_mac | some v ↦ some v ]

unfoldable pub eligible : Engine → Request → Addr → Bool
eligible e r a =
    if not (usable a e.settings.subnet.parsed)
      || same_addr a (must_parse_addr e.settings.server_ip)
      || same_addr a (must_parse_addr e.settings.gateway)
    then false
    else elim (reservation e r) [
      | some v ↦ same_addr a (must_parse_addr v.address)
      | none ↦ if has a e.reserved then false else in_pool e a
    ]

-- retainedTopology accepts the lease.
unfoldable pub retained_topology : Settings → Lease → Bool
retained_topology s l =
    if not s.enabled
    then true
    else usable l.address s.subnet.parsed
      && not (same_addr l.address (must_parse_addr s.server_ip))
      && not (same_addr l.address (must_parse_addr s.gateway))

unfoldable pub reply : Engine → MessageType → Addr → Request → Reply
reply e kind a r = record {
  type = kind;
  address = a;
  request = r;
  lease_seconds = if is_valid a then e.settings.lease_seconds else 0;
}

abbrev pub second : ℕ
second = 1_000_000_000

-- The whole seconds that are left of the grant, none at the last one.
unfoldable pub acknowledge : Engine → Entry → Request → Instant → Outcome
acknowledge e v r t =
    let seconds = (v.timing.expiry - t.run) / second in
    if ltb seconds 1
    then nothing
    else replies (record (reply e MessageType.ack v.lease.address r) { lease_seconds = seconds })

-- `if e.byID[id] == p { delete(e.byID, id) }`
unfoldable pub forget_name : List (List ℕ × ℕ) → List ℕ → ℕ → List (List ℕ × ℕ)
forget_name m id p = elim (find id m) [ none ↦ m | some q ↦ if q == p then delete id m else m ]

unfoldable pub remove : Engine → ℕ → Engine
remove e p =
    let l = (e.heap p).lease in
    mark (record e { by_ip = delete l.address e.by_ip; by_id = forget_name e.by_id l.identity p })
      l.address false

-- Addresses that are owned or reserved.
unfoldable pub unowned : List (Addr × List ℕ) → List (Addr × ℕ) → ℕ
unowned [] m = 0
unowned ((a, k) ∷ rs) m = unowned rs m + elim (find a m) [ none ↦ 1 | some p ↦ 0 ]

unfoldable pub occupied : Engine → ℕ
occupied e = length e.by_ip + unowned e.reserved e.by_ip

-- The first address of the pool whose bit is clear; `rounds` addresses are left from `n` on.
unfoldable pub search_pool : List Bool → ℕ → ℕ → ℕ → Addr
search_pool bits start zero n = invalid
search_pool bits start (suc rounds) n =
    let rest = search_pool bits start rounds (n + 1) in
    if get_or bits (n - start) true then rest else number_ipv4 n

unfoldable pub candidate_in_pool : Engine → Request → Addr
candidate_in_pool e r =
    let found =
      if is_set e.bitmap
      then search_pool e.bitmap e.start (e.end + 1 - e.start) e.start
      else invalid in
    if is4 r.requested_ip
      && in_pool e r.requested_ip
      && not (get_or e.bitmap (bit_of e r.requested_ip) true)
    then r.requested_ip
    else found

unfoldable pub candidate : Engine → Request → Addr
candidate e r = elim (reservation e r) [
  | some v ↦
      let a = must_parse_addr v.address in elim (find a e.by_ip) [ none ↦ a | some p ↦ invalid ]
  | none ↦ if leb (capacity e.settings) (occupied e) then invalid else candidate_in_pool e r
]
