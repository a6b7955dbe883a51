-- ===== src/Dhcp/Sound/Restoring.antt =====
-- A recovery leaves the lease engine sound, and its saved leases are the rows of the store.
use dimsum.Prelude.{
  ==_iff, Bool-cases, List, Option, [], ap, arith, bind-ok, false, guard-ok, if◌then◌else◌, inl,
  inr, leb, length, ltb, none, not, ok, ok-injective, refl, some, subst, sym, true, ℕ, ◌&&◌, ◌+◌,
  ◌==◌, ◌||◌, ◌∙◌, ◌∷◌, ◌≡◌,
}
use dimsum.Prelude.Bytes.{bytes_key}
use dimsum.Prelude.Maps.{find, find-insert, has, insert}
use dimsum.Dhcp.Address.{Addr, same_addr, addr_key}
use dimsum.Dhcp.Settings.{Settings, capacity}
use dimsum.Dhcp.Lease.{Engine, Instant, Lease, is_bound, is_quarantined, store}
use dimsum.Dhcp.Engine.{mark, retained_topology}
use dimsum.Dhcp.Recovery.{
  Recovered, clock_behind, count_reserved, duplicate_identity, invalid_horizon, invalid_lease,
  leases, over_capacity, restore, restore_row, restore_rows, restored_entry, topology_conflict,
  used_engine, valid_row,
}
use dimsum.Dhcp.Sound.Entries.{restored_entry-IsEntry}
use dimsum.Dhcp.Sound.{IsSound}
use dimsum.Dhcp.Sound.Moves.{mark-added-IsSound}
use dimsum.Dhcp.Sound.Saved.{row, row-fresh, saved}
use dimsum.Dhcp.Sound.Installing.{mark_keys_frame, mark_keys_sets}

-- The specification: the rows by address.
abbrev pub rows : List Lease → (Addr → Option Lease) → Addr → Option Lease
rows [] table a = table a
rows (l ∷ ls) table a = rows ls (λ b. if same_addr l.address b then some l else table b) a

-- The maps of a recovery, as an engine with no pool.
abbrev engine_of : Engine → Recovered → Engine
engine_of e m = record e {
  heap = m.heap;
  fresh = m.fresh;
  by_ip = m.ips;
  by_id = m.ids;
  bitmap = [];
  start = 0;
  end = 0;
}

abbrev with_lease : Instant → Recovered → Lease → Recovered
with_lease t m l = record {
  heap = store m.heap m.fresh (restored_entry t l);
  fresh = m.fresh + 1;
  ips = insert l.address m.fresh m.ips;
  ids = if is_bound l.state then insert l.identity m.fresh m.ids else m.ids;
}

restore_row-ok :
    (s : Settings) (t : Instant) (m m' : Recovered) (l : Lease)
    → restore_row s t m l ≡ ok m'
    → (valid_row m.ips l ≡ true) × (with_lease t m l ≡ m')
unfolding restore_row
restore_row-ok s t m m' l h =
    let valid = guard-ok (valid_row m.ips l) invalid_lease _ h in
    let held =
      guard-ok (not (l.hold_until == 0 || ltb l.hold_until l.expiry)) invalid_horizon _ valid.1 in
    let fit = guard-ok (retained_topology s l) topology_conflict _ held.1 in
    let single =
      guard-ok (not (is_bound l.state && has l.identity m.ids)) duplicate_identity _ fit.1 in
    (valid.0, ok-injective single.1)

not_has-free : (a : Addr) (m : List (Addr × ℕ)) → has a m ≡ false → find a m ≡ none
unfolding has find
not_has-free a [] h = refl
not_has-free a ((b, q) ∷ m) h = ground (arith, not_has-free a m)

valid_row-facts :
    (m : List (Addr × ℕ)) (l : Lease)
    → valid_row m l ≡ true
    → (is_bound l.state || is_quarantined l.state ≡ true) × (has l.address m ≡ false)
unfolding valid_row
valid_row-facts m l h = ground arith

module _ (e : Engine) (t : Instant) (m : Recovered) (l : Lease) (s : IsSound (engine_of e m))
    (valid : valid_row m.ips l ≡ true) where
  free : find l.address m.ips ≡ none
  free = not_has-free l.address m.ips (valid_row-facts m.ips l valid).1

  with_lease-IsSound : IsSound (engine_of e (with_lease t m l))
  unfolding mark
  with_lease-IsSound =
      mark-added-IsSound (engine_of e m) (restored_entry t l) (is_bound l.state) s
        (restored_entry-IsEntry t l (valid_row-facts m.ips l valid).0) free

  with_lease-saved :
      (a : Addr)
      → saved (engine_of e (with_lease t m l)) a
        ≡ (if same_addr l.address a then some l else saved (engine_of e m) a)
  with_lease-saved a =
      ap (row (store m.heap m.fresh (restored_entry t l))) (find-insert l.address a m.fresh m.ips)
      ∙ elim (Bool-cases (same_addr l.address a)) [
        | inl same ↦
            let self : (m.fresh == m.fresh) ≡ true = (==_iff m.fresh m.fresh).1 refl in ground arith
        | inr other ↦
            rw other (row-fresh m.heap m.fresh (restored_entry t l) (find a m.ips) (s.live a))
      ]

rows_same :
    (ls : List Lease) (f g : Addr → Option Lease) (a : Addr)
    → ((b : Addr) → f b ≡ g b)
    → rows ls f a ≡ rows ls g a
rows_same [] f g a h = h a
rows_same (l ∷ ls) f g a h = rows_same ls _ _ a (λ b. ground (arith, h b))

record IsRecovered (e : Engine) (m m' : Recovered) (ls : List Lease) : Type 0 where
  sound : IsSound (engine_of e m')
  table : (a : Addr) → saved (engine_of e m') a ≡ rows ls (saved (engine_of e m)) a

restore_rows-IsRecovered :
    (e : Engine) (s : Settings) (t : Instant) (ls : List Lease) (m m' : Recovered)
    → IsSound (engine_of e m)
    → restore_rows s t m ls ≡ ok m'
    → IsRecovered e m m' ls
unfolding restore_rows
restore_rows-IsRecovered e s t [] m m' h r =
    subst (λ x. IsRecovered e m x []) (ok-injective r) (record { sound = h; table = λ a. refl })
restore_rows-IsRecovered e s t (l ∷ ls) m m' h r =
    let one = bind-ok (restore_row s t m l) (λ x. restore_rows s t x ls) r in
    let row = restore_row-ok s t m one.0 l one.1 in
    let rest =
      restore_rows-IsRecovered e s t ls (with_lease t m l) m' (with_lease-IsSound e t m l h row.0)
        (subst (λ x. restore_rows s t x ls ≡ ok m') (sym row.1) one.2) in
    record {
      sound = rest.sound;
      table = λ a. rest.table a ∙ rows_same ls _ _ a (with_lease-saved e t m l h row.0);
    }

-- A recovered engine is sound, and holds the rows.
pub record IsRestored (e' : Engine) (leases : List Lease) : Type 0 where
  pub sound : IsSound e'
  pub table : (a : Addr) → saved e' a ≡ rows leases (λ _. none) a

-- `Restore`, if it accepts rows, leaves a sound engine whose saved leases are just these rows, each at
-- its address.
pub restore-IsRestored :
    (e e' : Engine) (leases : List Lease) (last_known : ℕ) (t : Instant)
    → restore e leases last_known t ≡ ok e'
    → IsRestored e' leases
unfolding restore find
restore-IsRestored e e' leases last_known t h =
    let unused = guard-ok (length e.by_ip == 0 && e.sequence == 0) used_engine _ h in
    let time = guard-ok (leb last_known t.wall) clock_behind _ unused.1 in
    let few = guard-ok (leb (length leases) (capacity e.settings)) over_capacity _ time.1 in
    let start : Recovered = record { heap = e.heap; fresh = e.fresh; ips = []; ids = [] } in
    let taken = bind-ok (restore_rows e.settings t start leases) _ few.1 in
    let m = taken.0 in
    let count = bind-ok (count_reserved m (length m.ips) e.reserved) _ taken.2 in
    let room = guard-ok (leb count.0 (capacity e.settings)) over_capacity _ count.2 in
    let r =
      restore_rows-IsRecovered e e.settings t leases start m
        (record {
          live = λ a p f. absurd (cc);
          placed = λ a p f. absurd (cc);
          good = λ a p f. absurd (cc);
          named = λ id p f. absurd (cc);
          distinct = tt;
          marked = λ n p f lo hi. refl;
        })
        taken.1 in
    let whole : Engine = record e {
      heap = m.heap;
      fresh = m.fresh;
      by_ip = m.ips;
      by_id = m.ids;
      last_time = some t;
    } in
    subst (λ x. IsRestored x leases) (sym (mark_keys_frame whole m.ips) ∙ ok-injective room.1)
      (record {
        sound = record {
          live = r.sound.live;
          placed = r.sound.placed;
          good = r.sound.good;
          named = r.sound.named;
          distinct = r.sound.distinct;
          marked = λ n p f lo hi. mark_keys_sets whole m.ips n p f lo hi;
        };
        table = r.table;
      })
