-- ===== src/Dhcp/Settings/Consistent.antt =====
-- What the validation of DHCP settings promises.
use dimsum.Prelude.{
  ==_iff, Bool-cases, List, Option, Result, [], arith, bind-ok, err, false, guard-ok, if◌then◌else◌,
  inl, inr, leb, length, ltb, none, not, ok, ok-injective, panic, refl, some, stuck, subst, sym,
  true, ℕ, ◌&&◌, ◌+◌, ◌<◌, ◌==◌, ◌||◌, ◌∷◌, ◌≡◌, ◌≢◌, ◌≤◌, ◌⊎◌,
}
use dimsum.Prelude.Bytes.{bytes_key}
use dimsum.Prelude.Maps.{contains}
use dimsum.Dhcp.Address.{
  Addr, Prefix, invalid, is4, is_special, is_valid, masked, same_addr, same_addr_iff, usable, v4,
  v6, addr_key,
}
use dimsum.Dhcp.Settings.{
  AddrText, Reservation, Settings, SettingsError, all_bytes, bad_gateway, bad_interface,
  bad_lease_seconds, bad_max_leases, bad_range_end, bad_range_start, bad_reservation, bad_server_ip,
  bad_subnet, capacity, is_empty, maximum_leases, reservation_key, too_many_reservations,
  valid_label,
}
use dimsum.Dhcp.Settings.Validate.{
  Seen, check_address, check_hostname, check_hosts, check_key, check_network, check_pool,
  check_reservation, check_reservations, check_reserved, check_scalars, check_subnet, has_prefix,
  is_interface_byte, validate_settings,
}

-- Every reservation has a key and an address of its own that is usable, and neither the server's nor
-- the gateway's. `keys` and `ips` are those of the reservations before.
abbrev pub AreReservable :
    Option Prefix → Addr → Addr → List (List ℕ) → List Addr → List Reservation → Type 0
AreReservable p server gateway keys ips [] = Unit
AreReservable p server gateway keys ips (r ∷ rs) =
    (k : List ℕ) × (a : Addr) × (reservation_key r ≡ ok k)
    × (r.address.parsed ≡ some a)
    × (usable a p ≡ true)
    × (a ≢ server)
    × (a ≢ gateway)
    × (contains k keys ≡ false)
    × (contains a ips ≡ false)
    × AreReservable p server gateway (k ∷ keys) (a ∷ ips) rs

check_key-ok :
    (i : ℕ) (r : Reservation) (k : List ℕ) → check_key i r ≡ ok k → reservation_key r ≡ ok k
unfolding check_key
check_key-ok i r k h = same (reservation_key r) h
  where
    same :
        (x : Result SettingsError (List ℕ))
        → (elim x [ ok k ↦ ok k | err e ↦ err (bad_reservation i) | panic ↦ panic | stuck ↦ stuck ])
          ≡ ok k
        → x ≡ ok k
    same (ok j) h = h
    same (err e) h = absurd (cc)
    same panic h = absurd (cc)
    same stuck h = absurd (cc)

check_reserved-ok :
    (i : ℕ) (p : Option Prefix) (server gateway a : Addr) (seen : Seen) (r : Reservation)
    → check_reserved i p server gateway seen r ≡ ok a
    → (r.address.parsed ≡ some a)
      × (usable a p ≡ true)
      × (a ≢ server)
      × (a ≢ gateway)
      × (contains a seen.ips ≡ false)
unfolding check_reserved
check_reserved-ok i p server gateway a seen r h = parsed r.address.parsed refl h
  where
    parsed :
        (x : Option Addr)
        → r.address.parsed ≡ x
        → (elim x [
          | none ↦ err (bad_reservation i)
          | some a ↦
              if not (usable a p)
                || same_addr a server
                || same_addr a gateway
                || contains a seen.ips
              then err (bad_reservation i)
              else ok a
        ])
          ≡ ok a
        → (r.address.parsed ≡ some a)
          × (usable a p ≡ true)
          × (a ≢ server)
          × (a ≢ gateway)
          × (contains a seen.ips ≡ false)
    parsed none e h = absurd (cc)
    parsed (some b) e h =
        elim (Bool-cases
          (not (usable b p) || same_addr b server || same_addr b gateway || contains b seen.ips)) [
            | inl bad ↦ absurd (ground arith)
            | inr good ↦
                let eq : b ≡ a = ground arith in
                subst
                  (λ x.
                    (r.address.parsed ≡ some x)
                    × (usable x p ≡ true)
                    × (x ≢ server)
                    × (x ≢ gateway)
                    × (contains x seen.ips ≡ false))
                  eq
                  (
                    e,
                    ground arith,
                    λ same. absurd (ground (arith, same_addr_iff b server)),
                    λ same. absurd (ground (arith, same_addr_iff b gateway)),
                    ground arith,
                  )
          ]

check_reservations-ok :
    (i : ℕ) (p : Option Prefix) (server gateway : Addr) (seen : Seen) (rs : List Reservation)
    → check_reservations i p server gateway seen rs ≡ ok tt
    → AreReservable p server gateway seen.keys seen.ips rs
unfolding check_reservations check_reservation
check_reservations-ok i p server gateway seen [] h = tt
check_reservations-ok i p server gateway seen (r ∷ rs) h =
    let one = bind-ok (check_reservation i p server gateway seen r) _ h in
    let named =
      guard-ok (valid_label r.id && not (contains r.id seen.ids)) (bad_reservation i) _ one.1 in
    let key = bind-ok (check_key i r) _ named.1 in
    let fresh = guard-ok (not (contains key.0 seen.keys)) (bad_reservation i) _ key.2 in
    let a = bind-ok (check_reserved i p server gateway seen r) _ fresh.1 in
    let names = bind-ok (check_hostname i seen r.hostname) _ a.2 in
    let facts = check_reserved-ok i p server gateway a.0 seen r a.1 in
    let seen' : Seen = record {
      ids = r.id ∷ seen.ids;
      keys = key.0 ∷ seen.keys;
      ips = a.0 ∷ seen.ips;
      names = names.0;
    } in
    (
      key.0,
      a.0,
      check_key-ok i r key.0 key.1,
      facts.0,
      facts.1,
      facts.2,
      facts.3,
      ground arith,
      facts.4,
      check_reservations-ok (i + 1) p server gateway seen' rs (
          subst (λ x. check_reservations (i + 1) p server gateway x rs ≡ ok tt)
            (sym (ok-injective names.2)) one.2),
    )

check_address-ok :
    (s : Settings) (p : Prefix) (e : SettingsError) (t : AddrText) (a : Addr)
    → s.enabled ≡ true
    → check_address s (some p) e t ≡ ok a
    → (n : ℕ) × (t.parsed ≡ some (v4 n)) × (a ≡ v4 n) × (usable (v4 n) (some p) ≡ true)
unfolding check_address
check_address-ok s p e t a on h = parsed t.parsed refl (enabled on h)
  where
    enabled :
        s.enabled ≡ true
        → (if not s.enabled && is_empty t.text then ok invalid else elim t.parsed [
          | none ↦ err e
          | some a ↦
              if not (is4 a) || is_special a || (has_prefix (some p) && not (usable a (some p)))
              then err e
              else ok a
        ])
          ≡ ok a
        → (elim t.parsed [
          | none ↦ err e
          | some a ↦
              if not (is4 a) || is_special a || (has_prefix (some p) && not (usable a (some p)))
              then err e
              else ok a
        ])
          ≡ ok a
    enabled on h = ground arith

    parsed :
        (x : Option Addr)
        → t.parsed ≡ x
        → (elim x [
          | none ↦ err e
          | some a ↦
              if not (is4 a) || is_special a || (has_prefix (some p) && not (usable a (some p)))
              then err e
              else ok a
        ])
          ≡ ok a
        → (n : ℕ) × (t.parsed ≡ some (v4 n)) × (a ≡ v4 n) × (usable (v4 n) (some p) ≡ true)
    parsed none eq h = absurd (cc)
    parsed (some invalid) eq h = absurd (cc)
    parsed (some (v4 n)) eq h = (n, eq, ground arith, ground arith)
    parsed (some (v6 n)) eq h = absurd (cc)

check_subnet-ok :
    (s : Settings) (p : Option Prefix)
    → s.enabled ≡ true
    → check_subnet s ≡ ok p
    → (q : Prefix) × (s.subnet.parsed ≡ some q) × (p ≡ some q) × (q.bits ≤ 30)
unfolding check_subnet
check_subnet-ok s p on h = parsed s.subnet.parsed refl (ground arith)
  where
    parsed :
        (x : Option Prefix)
        → s.subnet.parsed ≡ x
        → (elim x [
          | none ↦ err bad_subnet
          | some p ↦
              if not (is4 p.address) || ltb 30 p.bits || not (same_addr p.address (masked p))
              then err bad_subnet
              else ok (some p)
        ])
          ≡ ok p
        → (q : Prefix) × (s.subnet.parsed ≡ some q) × (p ≡ some q) × (q.bits ≤ 30)
    parsed none eq h = absurd (cc)
    parsed (some q) eq h = (q, eq, ground arith, ground arith)

check_pool-ok :
    (a g lo hi : ℕ)
    → check_pool (v4 a) (v4 g) (v4 lo) (v4 hi) ≡ ok tt
    → (lo ≤ hi) × (hi < lo + 65_536) × ((a < lo) ⊎ (hi < a)) × ((g < lo) ⊎ (hi < g))
unfolding check_pool
check_pool-ok a g lo hi h = ground arith

-- The network of an enabled server.
pub record IsConsistent (s : Settings) : Type 0 where
  pub subnet : Prefix
  pub server : ℕ
  pub gateway : ℕ
  pub first : ℕ
  pub last : ℕ
  pub subnet_parses : s.subnet.parsed ≡ some subnet
  pub server_parses : s.server_ip.parsed ≡ some (v4 server)
  pub gateway_parses : s.gateway.parsed ≡ some (v4 gateway)
  pub first_parses : s.range_start.parsed ≡ some (v4 first)
  pub last_parses : s.range_end.parsed ≡ some (v4 last)
  pub server_usable : usable (v4 server) (some subnet) ≡ true
  pub gateway_usable : usable (v4 gateway) (some subnet) ≡ true
  pub first_usable : usable (v4 first) (some subnet) ≡ true
  pub last_usable : usable (v4 last) (some subnet) ≡ true
  pub two_hosts : server ≢ gateway
  pub pool_order : first ≤ last
  pub pool_size : last < first + 65_536
  pub server_outside : (server < first) ⊎ (last < server)
  pub gateway_outside : (gateway < first) ⊎ (last < gateway)
  pub lease_time : (60 ≤ s.lease_seconds) × (s.lease_seconds ≤ 604_800)
  pub room : (1 ≤ capacity s) × (capacity s ≤ 4096) × (length s.reservations ≤ capacity s)
  pub reservable : AreReservable (some subnet) (v4 server) (v4 gateway) [] [] s.reservations

check_scalars-ok :
    (s : Settings)
    → s.enabled ≡ true
    → check_scalars s ≡ ok tt
    → ((60 ≤ s.lease_seconds) × (s.lease_seconds ≤ 604_800))
      × ((1 ≤ capacity s) × (capacity s ≤ 4096) × (length s.reservations ≤ capacity s))
unfolding check_scalars
check_scalars-ok s on h =
    let room =
      guard-ok (leb 1 (capacity s) && leb (capacity s) maximum_leases) bad_max_leases _ h in
    let few = guard-ok (leb (length s.reservations) (capacity s)) too_many_reservations _ room.1 in
    let iface =
      guard-ok
        (not (
          (s.enabled || not (is_empty s.interface))
          && (is_empty s.interface
              || ltb 15 (length s.interface)
              || not (all_bytes is_interface_byte s.interface))))
        bad_interface _ few.1 in
    let time =
      guard-ok
        (not (
          (s.enabled || not (s.lease_seconds == 0))
          && (ltb s.lease_seconds 60 || ltb 604_800 s.lease_seconds)))
        bad_lease_seconds _ iface.1 in
    ((ground arith, ground arith), (ground arith, ground arith, ground arith))

module _ (s : Settings) (q : Prefix) (a g lo hi : ℕ)
    (h : check_hosts s (some q) (v4 a) (v4 g) (v4 lo) (v4 hi) ≡ ok tt) where
  hosts_pool : (lo ≤ hi) × (hi < lo + 65_536) × ((a < lo) ⊎ (hi < a)) × ((g < lo) ⊎ (hi < g))
  unfolding check_hosts
  hosts_pool = check_pool-ok a g lo hi (bind-ok (check_pool (v4 a) (v4 g) (v4 lo) (v4 hi)) _ h).1

  hosts_rest : (a ≢ g) × AreReservable (some q) (v4 a) (v4 g) [] [] s.reservations
  unfolding check_hosts same_addr
  hosts_rest =
      let pool = bind-ok (check_pool (v4 a) (v4 g) (v4 lo) (v4 hi)) _ h in
      let two = guard-ok (not (is_valid (v4 a) && same_addr (v4 a) (v4 g))) bad_gateway _ pool.2 in
      (
        λ same. absurd (ground (arith, ==_iff a g, two.0)),
        check_reservations-ok 0 (some q) (v4 a) (v4 g)
            (record { ids = []; keys = []; ips = []; names = [] }) s.reservations two.1,
      )

network-IsConsistent :
    (s : Settings) (q : Prefix)
    → s.enabled ≡ true
    → s.subnet.parsed ≡ some q
    → check_scalars s ≡ ok tt
    → check_network s (some q) ≡ ok tt
    → IsConsistent s
unfolding check_network
network-IsConsistent s q on parses scalars h =
    let sc = check_scalars-ok s on scalars in
    let server = bind-ok (check_address s (some q) bad_server_ip s.server_ip) _ h in
    let gateway = bind-ok (check_address s (some q) bad_gateway s.gateway) _ server.2 in
    let start = bind-ok (check_address s (some q) bad_range_start s.range_start) _ gateway.2 in
    let end = bind-ok (check_address s (some q) bad_range_end s.range_end) _ start.2 in
    let a = check_address-ok s q bad_server_ip s.server_ip server.0 on server.1 in
    let g = check_address-ok s q bad_gateway s.gateway gateway.0 on gateway.1 in
    let lo = check_address-ok s q bad_range_start s.range_start start.0 on start.1 in
    let hi = check_address-ok s q bad_range_end s.range_end end.0 on end.1 in
    let hosts : check_hosts s (some q) (v4 a.0) (v4 g.0) (v4 lo.0) (v4 hi.0) ≡ ok tt =
      rw (← a.2, ← g.2, ← lo.2, ← hi.2) end.2 in
    let pool = hosts_pool s q a.0 g.0 lo.0 hi.0 hosts in
    let rest = hosts_rest s q a.0 g.0 lo.0 hi.0 hosts in
    record {
      subnet = q;
      server = a.0;
      gateway = g.0;
      first = lo.0;
      last = hi.0;
      subnet_parses = parses;
      server_parses = a.1;
      gateway_parses = g.1;
      first_parses = lo.1;
      last_parses = hi.1;
      server_usable = a.3;
      gateway_usable = g.3;
      first_usable = lo.3;
      last_usable = hi.3;
      two_hosts = rest.0;
      pool_order = pool.0;
      pool_size = pool.1;
      server_outside = pool.2;
      gateway_outside = pool.3;
      lease_time = sc.0;
      room = sc.1;
      reservable = rest.1;
    }

-- Settings that `ValidateSettings` accepts for an enabled server are consistent: the subnet, the
-- server, the gateway and both ends of the pool parse, the four addresses are usable in the subnet,
-- server and gateway differ and are outside the pool, the pool has from 1 to 65536 addresses, the
-- lease time is from 60 seconds to a week and the capacity from 1 to 4096, and every reservation has
-- a key and a usable address that no other reservation, nor the server, nor the gateway has.
pub validate_settings-IsConsistent :
    (s : Settings) → s.enabled ≡ true → validate_settings s ≡ ok tt → IsConsistent s
unfolding validate_settings
validate_settings-IsConsistent s on h =
    let scalars = bind-ok (check_scalars s) _ h in
    let net = bind-ok (check_subnet s) _ scalars.2 in
    let q = check_subnet-ok s net.0 on net.1 in
    network-IsConsistent s q.0 on q.1 scalars.1 (subst (λ x. check_network s x ≡ ok tt) q.2 net.2)
