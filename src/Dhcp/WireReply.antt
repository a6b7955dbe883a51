-- ===== src/Dhcp/WireReply.antt =====
-- internal/dhcp/reply.go: BuildReply. `to_bytes` is ToBytes of the dhcpv4 library, and `mtu` the
-- interface's. The map of options keeps the order in which they are set.
use dimsum.Prelude.{
  Bool, List, Result, [], err, false, guard, if◌then◌else◌, leb, length, ltb, min, none, not, ok,
  replicate, some, true, ℕ, ◌%◌, ◌&&◌, ◌*◌, ◌++◌, ◌+◌, ◌-◌, ◌/◌, ◌^◌, ◌∷◌, ◌>>=◌, ◌>>◌,
}
pub mod Carried
pub mod Delivered
pub mod Tests
use dimsum.Prelude.Bytes.{bytes_key}
use dimsum.Prelude.Maps.{delete, insert}
use dimsum.Dhcp.Address.{Addr, invalid, is4, is_unspecified, same_addr, v4, v6, addr_key}
use dimsum.Dhcp.Settings.{Settings, is_empty}
use dimsum.Dhcp.Lease.{MessageType, Reply, Request}
use dimsum.Dhcp.Packet.{Packet, nat_key}

abbrev pub max_datagram : ℕ
max_datagram = 4096

pub record WireReply : Type 0 where
  pub payload : List ℕ
  pub destination : Addr
  pub mac : List ℕ

pub data ReplyError : Type 0 where
  invalid_type invalid_server invalid_subnet oversized_client : ReplyError
  invalid_gateway too_large no_destination : ReplyError

-- binary.BigEndian.PutUint32
abbrev pub bytes4 : ℕ → List ℕ
bytes4 n = (n / 2 ^ 24 % 256) ∷ (n / 2 ^ 16 % 256) ∷ (n / 2 ^ 8 % 256) ∷ (n % 256) ∷ []

-- AsSlice
unfoldable pub as_slice : Addr → List ℕ
as_slice invalid = []
as_slice (v4 n) = bytes4 n
as_slice (v6 n) = bytes4 (n / 2 ^ 96) ++ (bytes4 (n / 2 ^ 64) ++ (bytes4 (n / 2 ^ 32) ++ bytes4 n))

-- net.CIDRMask(bits, 32)
abbrev pub cidr_mask : ℕ → List ℕ
cidr_mask bits = bytes4 (2 ^ 32 - 2 ^ (32 - bits))

abbrev pub is_nak : MessageType → Bool
is_nak MessageType.nak = true
is_nak m = false

-- Offer, ACK and NAK by their numbers
unfoldable pub reply_code : MessageType → Result ReplyError ℕ
reply_code MessageType.offer = ok 2
reply_code MessageType.ack = ok 5
reply_code MessageType.nak = ok 6
reply_code m = err invalid_type

unfoldable pub server_address : Settings → Result ReplyError Addr
server_address s = elim s.server_ip.parsed [
  | none ↦ err invalid_server
  | some a ↦ if is4 a then ok a else err invalid_server
]

unfoldable pub subnet_bits : Settings → Result ReplyError ℕ
subnet_bits s = elim s.subnet.parsed [
  | none ↦ err invalid_subnet
  | some p ↦ if is4 p.address then ok p.bits else err invalid_subnet
]

abbrev pub Options : Type 0
Options = List (ℕ × List ℕ)

-- `if b { p.Options[code] = v }`
abbrev pub insert_if : Bool → ℕ → List ℕ → Options → Options
insert_if true code v m = insert code v m
insert_if false code v m = m

-- Type, server and client identifier
unfoldable pub identity_options : ℕ → Addr → Request → Options
identity_options code server r =
    insert_if (not (is_empty r.client_id)) 61 r.client_id
      (insert 54 (as_slice server) (insert 53 (code ∷ []) []))

-- Options 51, 58 and 59: the lease, renewal and rebinding times
unfoldable pub lease_options : Reply → Options → Options
lease_options r m =
    let seconds = r.lease_seconds in
    if is4 r.address && ltb 0 seconds
    then insert_if (leb 3 seconds) 59 (bytes4 (seconds * 7 / 8))
        (insert_if (leb 3 seconds) 58 (bytes4 (seconds / 2)) (insert 51 (bytes4 seconds) m))
    else m

unfoldable pub gateway_option : Settings → Request → Options → Result ReplyError Options
gateway_option s r m =
    if r.requested_options 3
    then elim s.gateway.parsed [
      | none ↦ err invalid_gateway
      | some a ↦ ok (insert 3 (as_slice a) m)
    ]
    else ok m

-- What a reply but a NAK carries.
unfoldable pub grant_options : Settings → Addr → ℕ → Reply → Options → Result ReplyError Options
grant_options s server bits r m = do
  let q = r.request
  let timed = lease_options r m
  let masked = insert_if (q.requested_options 1) 1 (cidr_mask bits) timed
  routed ← gateway_option s q masked
  let named = insert_if (q.requested_options 6) 6 (as_slice server) routed
  ok (insert_if (q.requested_options 15) 15 s.local_domain named)

abbrev pub slice_unless : Bool → Addr → List ℕ
slice_unless nak a = if is4 a && not nak then as_slice a else []

unfoldable pub reply_packet : Reply → Options → Packet
reply_packet r m = record {
  op_code = 2;
  hw_type = 1;
  client_hw_addr = r.request.mac;
  hop_count = 0;
  transaction_id = bytes4 r.request.xid;
  flags = if r.request.broadcast then 2 ^ 15 else 0;
  client_ip_addr = slice_unless (is_nak r.type) r.request.ci_addr;
  your_ip_addr = slice_unless (is_nak r.type) r.address;
  gateway_ip_addr = [];
  options = m;
}

-- The limit on the payload and the 28 bytes of its headers, by message size, buffer and MTU.
unfoldable pub wire_limit : Request → ℕ → ℕ
wire_limit q mtu =
    min mtu (28 + min max_datagram (if leb 576 q.max_message_size then q.max_message_size else 576))

-- Optional configuration is dropped until the payload fits.
unfoldable pub trim : (Packet → List ℕ) → ℕ → List ℕ → Packet → Packet
trim to_bytes limit [] p = p
trim to_bytes limit (code ∷ codes) p =
    let rest = trim to_bytes limit codes (record p { options = delete code p.options }) in
    if leb (length (to_bytes p) + 28) limit then p else rest

abbrev pub broadcast_address : Addr
broadcast_address = v4 4_294_967_295

unfoldable pub destination_of : Reply → Addr
destination_of r =
    if is_nak r.type
    then broadcast_address
    else if is4 r.request.ci_addr && not (is_unspecified r.request.ci_addr)
    then r.request.ci_addr
    else if r.request.broadcast
    then broadcast_address
    else r.address

unfoldable pub address_reply : Reply → List ℕ → Result ReplyError WireReply
address_reply r payload = do
  let to = destination_of r
  guard (is4 to) no_destination
  ok (record {
    payload = payload;
    destination = to;
    mac = if same_addr to broadcast_address then replicate 6 255 else r.request.mac;
  })

unfoldable pub reply_options : Settings → Reply → Result ReplyError Options
reply_options s r = do
  code ← reply_code r.type
  server ← server_address s
  bits ← subnet_bits s
  guard (leb (length r.request.client_id) 255) oversized_client
  let m = identity_options code server r.request
  let granted = grant_options s server bits r m
  if is_nak r.type then ok m else granted

unfoldable pub build_reply : (Packet → List ℕ) → Settings → Reply → ℕ → Result ReplyError WireReply
build_reply to_bytes s r mtu = do
  m ← reply_options s r
  let limit = wire_limit r.request mtu
  let p = trim to_bytes limit (15 ∷ 3 ∷ 6 ∷ 1 ∷ []) (reply_packet r m)
  guard (leb (length (to_bytes p) + 28) limit) too_large
  address_reply r (to_bytes p)
