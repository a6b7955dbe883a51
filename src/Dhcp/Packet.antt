-- ===== src/Dhcp/Packet.antt =====
-- internal/dhcp/packet.go: DecodeRequest. A packet has the fields of dhcpv4.DHCPv4 that the source
-- reads and writes; a missing packet is `none`.
use dimsum.Prelude.{
  ==_iff, List, Option, Result, [], drop, err, get_or, guard, if◌then◌else◌, leb, length, ltb, none,
  ok, replicate, some, take, ℕ, ◌&&◌, ◌*◌, ◌++◌, ◌+◌, ◌==◌, ◌||◌, ◌∷◌, ◌>>=◌, ◌>>◌,
}
use dimsum.Prelude.Bytes.{bit, bytes_eq, bytes_key}
use dimsum.Prelude.Maps.{Key, contains, find}
use dimsum.Dhcp.Address.{Addr, invalid, is4, v4, v6, addr_key}
use dimsum.Dhcp.Lease.{MessageType, Request}
use dimsum.Dhcp.Engine.{valid_request}

instance abbrev pub nat_key : Key ℕ
nat_key = record { same = ◌==◌; same_iff = ==_iff }

pub record Packet : Type 0 where
  pub op_code : ℕ
  pub hw_type : ℕ
  pub client_hw_addr : List ℕ
  pub hop_count : ℕ
  pub transaction_id : List ℕ
  pub flags : ℕ
  pub client_ip_addr : List ℕ
  pub your_ip_addr : List ℕ
  pub gateway_ip_addr : List ℕ
  pub options : List (ℕ × List ℕ)

pub data PacketError : Type 0 where
  bad_request : PacketError

-- binary.BigEndian on all bytes of a slice
abbrev pub number_of : List ℕ → ℕ
number_of b = go 0 b
  where
    go : ℕ → List ℕ → ℕ
    go n [] = n
    go n (x ∷ b) = go (n * 256 + x) b

-- The prefix of an IPv4 address in IPv6
abbrev mapped_prefix : List ℕ
mapped_prefix = replicate 10 0 ++ (255 ∷ 255 ∷ [])

-- netip.AddrFromSlice, and Unmap on its answer
unfoldable pub addr_from_slice : List ℕ → Option Addr
addr_from_slice ip =
    if length ip == 4
    then some (v4 (number_of ip))
    else if length ip == 16
    then if bytes_eq (take 12 ip) mapped_prefix
      then some (v4 (number_of (drop 12 ip)))
      else some (v6 (number_of ip))
    else none

-- The closure `addr`
unfoldable pub packet_addr : List ℕ → Result PacketError Addr
packet_addr ip = if length ip == 0 then ok invalid else elim (addr_from_slice ip) [
  | none ↦ err bad_request
  | some a ↦ if is4 a then ok a else err bad_request
]

-- The messages of a client.
unfoldable pub client_message : ℕ → Result PacketError MessageType
client_message n =
    if n == 1
    then ok MessageType.discover
    else if n == 3
    then ok MessageType.request
    else if n == 4
    then ok MessageType.decline
    else if n == 7
    then ok MessageType.release
    else if n == 8
    then ok MessageType.inform
    else err bad_request

-- p.Options[code], nil if it is missing
abbrev option_or_empty : Packet → ℕ → List ℕ
option_or_empty p code = elim (find code p.options) [ none ↦ [] | some b ↦ b ]

-- Options 50 and 54
unfoldable pub address_option : Packet → ℕ → Result PacketError Addr
address_option p code = elim (find code p.options) [
  | none ↦ ok invalid
  | some b ↦ if length b == 4 then ok (v4 (number_of b)) else err bad_request
]

-- Option 61
unfoldable pub client_option : Packet → Result PacketError (List ℕ)
client_option p = elim (find 61 p.options) [
  | none ↦ ok []
  | some b ↦ if length b == 0 || ltb 255 (length b) then err bad_request else ok b
]

-- Option 57
unfoldable pub size_option : Packet → Result PacketError ℕ
size_option p = elim (find 57 p.options) [
  | none ↦ ok 0
  | some b ↦ if length b == 2 then ok (number_of b) else err bad_request
]

unfoldable pub decode_packet : Packet → Result PacketError Request
decode_packet p = do
  guard (p.op_code == 1 && p.hw_type == 1 && length p.client_hw_addr == 6 && p.hop_count == 0)
      bad_request
  ci_addr ← packet_addr p.client_ip_addr
  relay_ip ← packet_addr p.gateway_ip_addr
  guard (length (option_or_empty p 53) == 1) bad_request
  type ← client_message (get_or (option_or_empty p 53) 0 0)
  requested_ip ← address_option p 50
  server_id ← address_option p 54
  client_id ← client_option p
  guard (leb (length (option_or_empty p 12)) 63) bad_request
  size ← size_option p
  guard (leb (length (option_or_empty p 55)) 255) bad_request
  let r : Request = record {
    type = type;
    xid = number_of p.transaction_id;
    mac = p.client_hw_addr;
    client_id = client_id;
    hostname = option_or_empty p 12;
    requested_ip = requested_ip;
    server_id = server_id;
    ci_addr = ci_addr;
    relay_ip = relay_ip;
    broadcast = bit p.flags 15;
    max_message_size = size;
    requested_options = λ code. contains code (option_or_empty p 55);
  }
  guard (valid_request r) bad_request
  ok r

unfoldable pub decode_request : Option Packet → Result PacketError Request
decode_request none = err bad_request
decode_request (some p) = decode_packet p
