-- ===== src/Dhcp/Sound/Installing.antt =====
-- A new configuration and a recovery leave the lease engine sound; the first keeps every saved lease,
-- and the second takes the rows of the store.
use dimsum.Prelude.{
  Bool, Bool-cases, List, Option, [], ap, arith, get_or, inl, inr, refl, some, subst, sym, true, ℕ,
  ◌-◌, ◌∙◌, ◌∷◌, ◌≡◌, ◌≤◌,
}
use dimsum.Prelude.Bytes.{bytes_key}
use dimsum.Prelude.Maps.{find}
use dimsum.Dhcp.Address.{Addr, same_addr, same_addr_iff, v4, v6, addr_key}
use dimsum.Dhcp.Settings.{Reservation, Settings}
use dimsum.Dhcp.Lease.{Engine}
use dimsum.Dhcp.Engine.{mark}
use dimsum.Dhcp.Recovery.{
  install, install_pool, mark_keys, pool_bits, reservation_map, reserved_map,
}
use dimsum.Dhcp.Sound.Marks.{IsMarked, mark_frame, mark_keeps, mark_sets}
use dimsum.Dhcp.Sound.{IsSound}
use dimsum.Dhcp.Sound.Saved.{SameSaved}

pub mark_keys_frame :
    {V : Type 0} (e : Engine) (m : List (Addr × V))
    → mark_keys e m ≡ record e { bitmap = (mark_keys e m).bitmap }
unfolding mark_keys
mark_keys_frame e [] = refl
mark_keys_frame e ((a, v) ∷ m) =
    subst (λ x. mark_keys x m ≡ record e { bitmap = (mark_keys x m).bitmap })
      (sym (mark_frame e a true)) (mark_keys_frame (record e { bitmap = (mark e a true).bitmap }) m)

mark_keys_keeps :
    {V : Type 0} (e : Engine) (m : List (Addr × V)) (j : ℕ)
    → get_or e.bitmap j true ≡ true
    → get_or (mark_keys e m).bitmap j true ≡ true
unfolding mark_keys
mark_keys_keeps e [] j h = h
mark_keys_keeps e ((a, v) ∷ m) j h = mark_keys_keeps (mark e a true) m j (mark_keeps e a j h)

pub mark_keys_sets :
    (e : Engine) (m : List (Addr × ℕ)) (n p : ℕ)
    → find (v4 n) m ≡ some p
    → e.start ≤ n
    → n ≤ e.end
    → get_or (mark_keys e m).bitmap (n - e.start) true ≡ true
unfolding mark_keys find
mark_keys_sets e [] n p h lo hi = absurd (cc)
mark_keys_sets e ((a, q) ∷ m) n p h lo hi = elim (Bool-cases (same_addr a (v4 n))) [
  | inl same ↦ mark_keys_keeps (mark e a true) m (n - e.start) (
      subst (λ x. get_or (mark e x true).bitmap (n - e.start) true ≡ true)
        (sym ((same_addr_iff a (v4 n)).0 same)) (mark_sets e n lo hi))
  | inr other ↦
      let e1 : Engine = record e { bitmap = (mark e a true).bitmap } in
      subst (λ x. get_or (mark_keys x m).bitmap (n - e.start) true ≡ true)
        (sym (mark_frame e a true)) (mark_keys_sets e1 m n p (ground arith) lo hi)
]

-- The bitmap is made anew over the same owners.
pub remarked-IsSound :
    (e : Engine)
    → IsSound e
    → (bits : List Bool) (start end : ℕ) → IsMarked e.by_ip bits start end
    → IsSound (record e { bitmap = bits; start = start; end = end })
remarked-IsSound e s bits start end marked = record {
  live = s.live;
  placed = s.placed;
  good = s.good;
  named = s.named;
  distinct = s.distinct;
  marked = marked;
}

pub record IsInstalled (e e' : Engine) : Type 0 where
  pub sound : IsSound e'
  pub same : SameSaved e e'

install_pool-IsInstalled :
    (e : Engine) (a b : Option Addr) → IsSound e → IsInstalled e (install_pool e a b)
unfolding install_pool
install_pool-IsInstalled e (some (v4 a)) (some (v4 b)) s =
    let sized : Engine = record e { start = a; end = b; bitmap = pool_bits a b } in
    let first = mark_keys sized sized.reserved in
    let first' : Engine = record sized { bitmap = first.bitmap } in
    subst (IsInstalled e)
      (sym (
        ap (λ x. mark_keys x sized.by_ip) (mark_keys_frame sized sized.reserved)
        ∙ mark_keys_frame first' sized.by_ip))
      (record {
        sound =
            remarked-IsSound e s (mark_keys first' sized.by_ip).bitmap a b
              (λ n p h lo hi. mark_keys_sets first' e.by_ip n p h lo hi);
        same = λ x. refl;
      })
install_pool-IsInstalled e (some (v4 a)) (some (v6 b)) s = record {
  sound = remarked-IsSound e s [] 0 0 (λ n p h lo hi. refl);
  same = λ x. refl;
}
install_pool-IsInstalled e a b s = record {
  sound = remarked-IsSound e s [] 0 0 (λ n p h lo hi. refl);
  same = λ x. refl;
}

configured-IsSound :
    (e : Engine) (s : Settings) (g : ℕ) (m : List (List ℕ × Reservation)) (k : List (Addr × List ℕ))
    → IsSound e
    → IsSound (record e { settings = s; generation = g; reservations = m; reserved = k })
configured-IsSound e s g m k h = record {
  live = h.live;
  placed = h.placed;
  good = h.good;
  named = h.named;
  distinct = h.distinct;
  marked = h.marked;
}

pub install-IsInstalled :
    (e : Engine) (s : Settings) (g : ℕ) → IsSound e → IsInstalled e (install e s g)
unfolding install
install-IsInstalled e s g h =
    let e1 : Engine = record e {
      settings = s;
      generation = g;
      reservations = reservation_map [] s.reservations;
      reserved = reserved_map [] s.reservations;
    } in
    let i =
      install_pool-IsInstalled e1 s.range_start.parsed s.range_end.parsed
        (configured-IsSound e s g _ _ h) in
    record { sound = i.sound; same = i.same }
