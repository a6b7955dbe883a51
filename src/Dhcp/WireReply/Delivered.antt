-- ===== src/Dhcp/WireReply/Delivered.antt =====
-- What a reply of internal/dhcp/reply.go keeps of its lease, and where it fits.
use dimsum.Prelude.{
  Bool, Bool-cases, List, Option, Result, [], ap, arith, bind-ok, false, guard-ok, if◌then◌else◌,
  inl, inr, leb, length, ltb, none, ok, ok-injective, refl, some, subst, sym, true, ℕ, ◌&&◌, ◌+◌,
  ◌∙◌, ◌∷◌, ◌≡◌, ◌≤◌, ◌⊎◌,
}
use dimsum.Prelude.Bytes.{bytes_key}
use dimsum.Prelude.Maps.{contains, delete, find}
use dimsum.Dhcp.Address.{Addr, is4, addr_key}
use dimsum.Dhcp.Settings.{Settings}
use dimsum.Dhcp.Lease.{Reply, Request}
use dimsum.Dhcp.Packet.{Packet, nat_key}
use dimsum.Dhcp.WireReply.{
  Options, ReplyError, WireReply, address_reply, as_slice, broadcast_address, build_reply, bytes4,
  destination_of, grant_options, identity_options, is_nak, max_datagram, no_destination, reply_code,
  reply_options, reply_packet, server_address, slice_unless, subnet_bits, trim, wire_limit,
}
use dimsum.Dhcp.WireReply.Carried.{
  find-grant_options, find-identity_options_51, find-identity_options_53, find-identity_options_54,
  find-lease_options, find-lease_options_other, find-trim, optional_codes,
}

-- The lease time that a reply carries in option 51: a grant's, and no other's
abbrev pub time_option : Reply → Option (List ℕ)
time_option r =
    if is_nak r.type
    then none
    else if is4 r.address && ltb 0 r.lease_seconds
    then some (bytes4 r.lease_seconds)
    else none

-- The options of a reply: its type, the server and the lease time.
pub record IsLabelled (s : Settings) (r : Reply) (m : Options) : Type 0 where
  pub code : ℕ
  pub typed : reply_code r.type ≡ ok code
  pub server : Addr
  pub serves : server_address s ≡ ok server
  pub tells_type : find 53 m ≡ some (code ∷ [])
  pub tells_server : find 54 m ≡ some (as_slice server)
  pub tells_time : find 51 m ≡ time_option r

find-unless_nak :
    (nak : Bool) (j : ℕ) (m m' : Options) (x : Result ReplyError Options) (o o' : Option (List ℕ))
    → find j m ≡ o
    → ((g : Options) → x ≡ ok g → find j g ≡ o')
    → (if nak then ok m else x) ≡ ok m'
    → find j m' ≡ (if nak then o else o')
find-unless_nak true j m m' x o o' base k h = ap (find j) (sym (ok-injective h)) ∙ base
find-unless_nak false j m m' x o o' base k h = k m' h

if_same : (b : Bool) (o : Option (List ℕ)) → (if b then o else o) ≡ o
if_same true o = refl
if_same false o = refl

-- What a grant's options are, if they are neither optional nor the times of the lease.
find-granted :
    (j : ℕ) (s : Settings) (server : Addr) (bits : ℕ) (r : Reply) (m m' : Options)
    (o : Option (List ℕ))
    → contains j optional_codes ≡ false
    → contains j (51 ∷ 58 ∷ 59 ∷ []) ≡ false
    → find j m ≡ o
    → (if is_nak r.type then ok m else grant_options s server bits r m) ≡ ok m'
    → find j m' ≡ o
find-granted j s server bits r m m' o needed untimed base h =
    find-unless_nak (is_nak r.type) j m m' (grant_options s server bits r m) o o base
      (λ g e.
        find-grant_options j s server bits r m g needed e
        ∙ find-lease_options_other j r m untimed
        ∙ base)
      h
    ∙ if_same (is_nak r.type) o

find-granted_time :
    (s : Settings) (server : Addr) (bits : ℕ) (r : Reply) (m m' : Options)
    → find 51 m ≡ none
    → (if is_nak r.type then ok m else grant_options s server bits r m) ≡ ok m'
    → find 51 m' ≡ time_option r
unfolding contains
find-granted_time s server bits r m m' base h =
    let leased = is4 r.address && ltb 0 r.lease_seconds in
    find-unless_nak (is_nak r.type) 51 m m' (grant_options s server bits r m) none _ base
      (λ g e.
        find-grant_options 51 s server bits r m g refl e
        ∙ find-lease_options r m
        ∙ ap (λ o. if leased then some (bytes4 r.lease_seconds) else o) base)
      h

pub reply_options-IsLabelled :
    (s : Settings) (r : Reply) (m : Options) → reply_options s r ≡ ok m → IsLabelled s r m
unfolding reply_options contains
reply_options-IsLabelled s r m h =
    let (code, typed, h1) = bind-ok (reply_code r.type) _ h in
    let (server, serves, h2) = bind-ok (server_address s) _ h1 in
    let (bits, subnet, h3) = bind-ok (subnet_bits s) _ h2 in
    let (small, h4) = guard-ok (leb (length r.request.client_id) 255) _ _ h3 in
    let q = r.request in
    let m0 = identity_options code server q in
    record {
      code = code;
      typed = typed;
      server = server;
      serves = serves;
      tells_type =
          find-granted 53 s server bits r m0 m _ refl refl (find-identity_options_53 code server q)
            h4;
      tells_server =
          find-granted 54 s server bits r m0 m _ refl refl (find-identity_options_54 code server q)
            h4;
      tells_time =
          find-granted_time s server bits r m0 m (find-identity_options_51 code server q) h4;
    }

trim-IsLabelled :
    (to_bytes : Packet → List ℕ) (limit : ℕ) (s : Settings) (r : Reply) (p : Packet)
    → IsLabelled s r p.options
    → IsLabelled s r (Packet.options (trim to_bytes limit optional_codes p))
unfolding contains
trim-IsLabelled to_bytes limit s r p h = record {
  code = h.code;
  typed = h.typed;
  server = h.server;
  serves = h.serves;
  tells_type = find-trim to_bytes limit 53 optional_codes p refl ∙ h.tells_type;
  tells_server = find-trim to_bytes limit 54 optional_codes p refl ∙ h.tells_server;
  tells_time = find-trim to_bytes limit 51 optional_codes p refl ∙ h.tells_time;
}

-- The payload is a packet with its labels and its address, small enough for the interface and the
-- buffer, and goes to an IPv4 address; a NAK offers none and goes to all.
pub record IsDeliverable (to_bytes : Packet → List ℕ) (s : Settings) (r : Reply) (mtu : ℕ)
    (w : WireReply) : Type 0 where
  pub packet : Packet
  pub encoded : w.payload ≡ to_bytes packet
  pub labelled : IsLabelled s r packet.options
  pub offered : packet.your_ip_addr ≡ slice_unless (is_nak r.type) r.address
  pub fits_mtu : length w.payload + 28 ≤ mtu
  pub fits_buffer : length w.payload ≤ max_datagram
  pub reachable : is4 w.destination ≡ true
  pub broadcast_nak : (is_nak r.type ≡ false) ⊎ (w.destination ≡ broadcast_address)

trim-your_ip_addr :
    (to_bytes : Packet → List ℕ) (limit : ℕ) (codes : List ℕ) (p : Packet)
    → Packet.your_ip_addr (trim to_bytes limit codes p) ≡ p.your_ip_addr
unfolding trim
trim-your_ip_addr to_bytes limit [] p = refl
trim-your_ip_addr to_bytes limit (c ∷ codes) p =
    elim (Bool-cases (leb (length (to_bytes p) + 28) limit)) [
      | inl fits ↦ rw fits refl
      | inr big ↦
          rw big
            (trim-your_ip_addr to_bytes limit codes (record p { options = delete c p.options }))
    ]

destination_of-nak : (r : Reply) → (is_nak r.type ≡ false) ⊎ (destination_of r ≡ broadcast_address)
unfolding destination_of
destination_of-nak r = elim (Bool-cases (is_nak r.type)) [
  | inl nak ↦ inr (rw nak refl)
  | inr other ↦ inl other
]

wire_limit-mtu : (q : Request) (mtu n : ℕ) → leb n (wire_limit q mtu) ≡ true → n ≤ mtu
unfolding wire_limit
wire_limit-mtu q mtu n fits = ground arith

wire_limit-datagram :
    (q : Request) (mtu n : ℕ) → leb (n + 28) (wire_limit q mtu) ≡ true → n ≤ max_datagram
unfolding wire_limit
wire_limit-datagram q mtu n fits = ground arith

address_reply-IsDeliverable :
    (to_bytes : Packet → List ℕ) (s : Settings) (r : Reply) (mtu : ℕ) (w : WireReply) (p : Packet)
    → IsLabelled s r p.options
    → p.your_ip_addr ≡ slice_unless (is_nak r.type) r.address
    → leb (length (to_bytes p) + 28) (wire_limit r.request mtu) ≡ true
    → address_reply r (to_bytes p) ≡ ok w
    → IsDeliverable to_bytes s r mtu w
unfolding address_reply
address_reply-IsDeliverable to_bytes s r mtu w p labelled offered fits h =
    let (reachable, h') = guard-ok (is4 (destination_of r)) no_destination _ h in
    subst (IsDeliverable to_bytes s r mtu) (ok-injective h') (record {
      packet = p;
      encoded = refl;
      labelled = labelled;
      offered = offered;
      fits_mtu = wire_limit-mtu r.request mtu (length (to_bytes p) + 28) fits;
      fits_buffer = wire_limit-datagram r.request mtu (length (to_bytes p)) fits;
      reachable = reachable;
      broadcast_nak = destination_of-nak r;
    })

trimmed-IsDeliverable :
    (to_bytes : Packet → List ℕ) (s : Settings) (r : Reply) (mtu : ℕ) (w : WireReply) (m : Options)
    → reply_options s r ≡ ok m
    → let p = trim to_bytes (wire_limit r.request mtu) optional_codes (reply_packet r m) in
      leb (length (to_bytes p) + 28) (wire_limit r.request mtu) ≡ true
      → address_reply r (to_bytes p) ≡ ok w
      → IsDeliverable to_bytes s r mtu w
unfolding reply_packet
trimmed-IsDeliverable to_bytes s r mtu w m options fits h =
    let limit = wire_limit r.request mtu in
    let p = reply_packet r m in
    address_reply-IsDeliverable to_bytes s r mtu w (trim to_bytes limit optional_codes p)
      (trim-IsLabelled to_bytes limit s r p (reply_options-IsLabelled s r m options))
      (trim-your_ip_addr to_bytes limit optional_codes p) fits h

-- For any encoder of packets, a reply that BuildReply returns is the encoding of a packet that has
-- the type of the reply in option 53, the server in option 54, and in option 51 the lease time for a
-- grant of an address with a lease and nothing otherwise, however many options were dropped to fit;
-- its address is offered unless it is a NAK. The payload and its 28 bytes of headers fit the MTU, and
-- the payload the buffer of 4096 bytes. The destination is an IPv4 address, and everyone for a NAK.
pub build_reply-IsDeliverable :
    (to_bytes : Packet → List ℕ) (s : Settings) (r : Reply) (mtu : ℕ) (w : WireReply)
    → build_reply to_bytes s r mtu ≡ ok w
    → IsDeliverable to_bytes s r mtu w
unfolding build_reply
build_reply-IsDeliverable to_bytes s r mtu w h =
    let (m, options, h1) = bind-ok (reply_options s r) _ h in
    let (fits, h2) = guard-ok (leb (length (to_bytes _) + 28) (wire_limit r.request mtu)) _ _ h1 in
    trimmed-IsDeliverable to_bytes s r mtu w m options fits h2
