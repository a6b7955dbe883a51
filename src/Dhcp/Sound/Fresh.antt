-- ===== src/Dhcp/Sound/Fresh.antt =====
-- A candidate address is never owned, so a new probe takes no address away.
use dimsum.Prelude.{
  Bool, Bool-cases, List, Option-cases, arith, false, get_or, inl, inr, leb, ltb, none, not, refl,
  suc, true, zero, ℕ, ◌%◌, ◌&&◌, ◌+◌, ◌-◌, ◌<◌, ◌^◌, ◌||◌, ◌≡◌, ◌≤◌, ◌⊎◌,
}
use dimsum.Prelude.Bytes.{at, bytes_key}
use dimsum.Prelude.Maps.{find}
use dimsum.Dhcp.Address.{Addr, invalid, is4, is_valid, v4, v6, addr_key}
use dimsum.Dhcp.Settings.{capacity, must_parse_addr}
use dimsum.Dhcp.Lease.{Engine, Instant, Request}
use dimsum.Dhcp.Engine.{
  bit_of, candidate, candidate_in_pool, in_pool, is_set, occupied, reservation, search_pool,
}
use dimsum.Dhcp.Handle.{discover, has_room, probing_entry, start_probe}
use dimsum.Dhcp.Sound.Entries.{probing_entry-IsEntry}
use dimsum.Dhcp.Sound.{IsSound}
use dimsum.Dhcp.Sound.Moves.{mark-added-IsSound}

search_pool_lem :
    (bits : List Bool) (start rounds n : ℕ)
    → (search_pool bits start rounds n ≡ invalid)
      ⊎ ((m : ℕ) × (search_pool bits start rounds n ≡ v4 m)
          × (n ≤ m)
          × (m < n + rounds)
          × (get_or bits (m - start) true ≡ false))
unfolding search_pool
search_pool_lem bits start zero n = inl refl
search_pool_lem bits start (suc rounds) n = elim (Bool-cases (get_or bits (n - start) true)) [
  | inr clear ↦ inr (n, rw clear refl, omega arith, omega arith, clear)
  | inl used ↦ elim (search_pool_lem bits start rounds (n + 1)) [
    | inl no_more ↦ inl (rw used no_more)
    | inr (m, at, lo, hi, clear) ↦ inr (m, rw used at, omega arith, omega arith, clear)
  ]
]

clear-IsFree :
    (e : Engine) (m : ℕ)
    → IsSound e
    → e.start ≤ m
    → m ≤ e.end
    → get_or e.bitmap (m - e.start) true ≡ false
    → find (v4 m) e.by_ip ≡ none
clear-IsFree e m s lo hi clear = elim (Option-cases (find (v4 m) e.by_ip)) [
  | inl free ↦ free
  | inr (p, owned) ↦ absurd (ground (arith, s.marked m p owned lo hi))
]

abbrev pub IsFreeOrInvalid : Engine → Addr → Type 0
IsFreeOrInvalid e a = (a ≡ invalid) ⊎ (find a e.by_ip ≡ none)

found-IsFree :
    (e : Engine)
    → IsSound e
    → IsFreeOrInvalid e (search_pool e.bitmap e.start (e.end + 1 - e.start) e.start)
found-IsFree e s = elim (search_pool_lem e.bitmap e.start (e.end + 1 - e.start) e.start) [
  | inl no_more ↦ inl no_more
  | inr (m, at, lo, hi, clear) ↦ inr (rw at (clear-IsFree e m s lo (omega arith) clear))
]

requested-IsFree :
    (e : Engine) (a : Addr)
    → IsSound e
    → is4 a ≡ true
    → in_pool e a ≡ true
    → get_or e.bitmap (bit_of e a) true ≡ false
    → find a e.by_ip ≡ none
requested-IsFree e invalid s v i clear = absurd (cc)
requested-IsFree e (v4 m) s v i clear = clear-IsFree e m s (ground arith) (ground arith) clear
requested-IsFree e (v6 m) s v i clear = absurd (cc)

in_pool-IsFree : (e : Engine) (r : Request) → IsSound e → IsFreeOrInvalid e (candidate_in_pool e r)
unfolding candidate_in_pool
in_pool-IsFree e r s =
    elim (Bool-cases (
      is4 r.requested_ip
      && in_pool e r.requested_ip
      && not (get_or e.bitmap (bit_of e r.requested_ip) true))) [
        | inl asked ↦ inr (
            rw asked
              (requested-IsFree e r.requested_ip s (ground arith) (ground arith) (ground arith)))
        | inr unasked ↦ elim (Bool-cases (is_set e.bitmap)) [
          | inl there ↦ rw (unasked, there) (found-IsFree e s)
          | inr empty ↦ rw (unasked, empty) (inl refl)
        ]
      ]

pub candidate-IsFree : (e : Engine) (r : Request) → IsSound e → IsFreeOrInvalid e (candidate e r)
unfolding candidate
candidate-IsFree e r s = elim (Option-cases (reservation e r)) [
  | inr (v, reserved) ↦ elim (Option-cases (find (must_parse_addr v.address) e.by_ip)) [
    | inl free ↦
        let eq : candidate e r ≡ must_parse_addr v.address = ground arith in inr (rw eq free)
    | inr (p, taken) ↦ inl (ground arith)
  ]
  | inl unreserved ↦ elim (Bool-cases (leb (capacity e.settings) (occupied e))) [
    | inl full ↦ inl (ground arith)
    | inr room ↦
        let eq : candidate e r ≡ candidate_in_pool e r = ground arith in
        rw eq (in_pool-IsFree e r s)
  ]
]

-- `start_probe` at a free address.
start_probe-IsSound :
    (e : Engine) (r : Request) (t : Instant) (attempt : ℕ) (a : Addr)
    → IsSound e
    → find a e.by_ip ≡ none
    → IsSound (start_probe e r t attempt a).0
unfolding start_probe probing_entry
start_probe-IsSound e r t attempt a s free =
    let e' : Engine = record e { sequence = (e.sequence + 1) % 2 ^ 64; probes = e.probes + 1 } in
    let s' : IsSound e' = record {
      live = s.live;
      placed = s.placed;
      good = s.good;
      named = s.named;
      distinct = s.distinct;
      marked = s.marked;
    } in
    mark-added-IsSound e' (probing_entry e r t attempt a) true s'
      (probing_entry-IsEntry e r t attempt a) free

pub discover-IsSound :
    (e : Engine) (r : Request) (t : Instant) (attempt : ℕ)
    → IsSound e
    → IsSound (discover e r t attempt).0
unfolding discover
discover-IsSound e r t attempt s =
    elim (Bool-cases (
      leb 2 e.probes
      || ltb 3 attempt
      || not (is_valid (candidate e r))
      || not (has_room e (candidate e r)))) [
        | inl declined ↦ rw declined s
        | inr probing ↦ rw probing (
            start_probe-IsSound e r t attempt (candidate e r) s
              (elim (candidate-IsFree e r s) [ inl bad ↦ absurd (ground arith) | inr free ↦ free ]))
      ]
