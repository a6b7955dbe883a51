-- ===== src/Dhcp/WireReply/Tests.antt =====
-- Runs of DecodeRequest and BuildReply of internal/dhcp.
use dimsum.Prelude.{
  Bool, List, Option, Result, [], err, length, none, ok, panic, refl, some, stuck, true, ℕ, ◌++◌,
  ◌==◌, ◌^◌, ◌||◌, ◌∷◌, ◌≡◌,
}
use dimsum.Prelude.Bytes.{bytes_eq, bytes_key}
use dimsum.Prelude.Maps.{contains, delete, find, insert}
use dimsum.Dhcp.Address.{invalid, v4, addr_key}
use dimsum.Dhcp.Lease.{MessageType, Reply, Request}
use dimsum.Dhcp.Engine.{valid_request}
use dimsum.Dhcp.Packet.{
  Packet, PacketError, addr_from_slice, address_option, bad_request, client_message, client_option,
  decode_packet, decode_request, packet_addr, size_option, nat_key,
}
use dimsum.Dhcp.WireReply.{
  WireReply, address_reply, as_slice, build_reply, destination_of, gateway_option, grant_options,
  identity_options, lease_options, reply_code, reply_options, reply_packet, server_address,
  subnet_bits, too_large, trim, wire_limit,
}
use dimsum.Dhcp.WireReply.Delivered.{IsDeliverable, build_reply-IsDeliverable}
use dimsum.Dhcp.Tests.{host, lan, laptop_mac, selects}

program : Unit {0}
unfolding bytes_eq find insert delete contains valid_request addr_from_slice packet_addr
    client_message address_option client_option size_option decode_packet decode_request as_slice
    reply_code server_address subnet_bits identity_options lease_options gateway_option
    grant_options reply_packet wire_limit trim destination_of address_reply reply_options
    build_reply
program = tt

-- A stand-in for the encoder: the addresses and the options in their order.
abbrev encode_options : List (ℕ × List ℕ) → List ℕ
encode_options [] = 255 ∷ []
encode_options ((code, b) ∷ m) = code ∷ length b ∷ (b ++ encode_options m)

abbrev encode : Packet → List ℕ
encode p = p.op_code ∷ (p.transaction_id ++ (p.your_ip_addr ++ encode_options p.options))

abbrev discover_packet : Packet
discover_packet = record {
  op_code = 1;
  hw_type = 1;
  client_hw_addr = laptop_mac;
  hop_count = 0;
  transaction_id = 0 ∷ 0 ∷ 1 ∷ 2 ∷ [];
  flags = 2 ^ 15;
  client_ip_addr = [];
  your_ip_addr = [];
  gateway_ip_addr = [];
  options = (53, 1 ∷ []) ∷ (55, 1 ∷ 3 ∷ []) ∷ [];
}

abbrev xid_and_broadcast : Result PacketError Request → Option (ℕ × Bool × Bool)
xid_and_broadcast (ok r) = some (r.xid, r.broadcast, r.requested_options 3)
xid_and_broadcast r = none

decodes : xid_and_broadcast (decode_request (some discover_packet)) ≡ some (258, true, true)
unfolding program
decodes = refl

relayed : decode_request (some (record discover_packet { hop_count = 1 })) ≡ err bad_request
unfolding program
relayed = refl

abbrev granted : Reply
granted = record {
  request = record selects { requested_options = λ code. code == 1 || code == 15 };
  type = MessageType.ack;
  address = v4 (host 10);
  lease_seconds = 3600;
}

abbrev sent : WireReply
sent = elim (build_reply encode lan granted 74) [
  | ok w ↦ w
  | err x ↦ record { payload = []; destination = invalid; mac = [] }
  | panic ↦ record { payload = []; destination = invalid; mac = [] }
  | stuck ↦ record { payload = []; destination = invalid; mac = [] }
]

-- The domain does not fit and is dropped; the netmask stays.
builds : build_reply encode lan granted 74 ≡ ok sent
unfolding program
builds = refl

payload_sent : length sent.payload ≡ 43
unfolding program
payload_sent = refl

too_small : build_reply encode lan granted 40 ≡ err too_large
unfolding program
too_small = refl

build_reply-IsDeliverable_example : IsDeliverable encode lan granted 74 sent
build_reply-IsDeliverable_example = build_reply-IsDeliverable encode lan granted 74 sent builds
