-- ===== src/Dhcp/Sound/Moves.antt =====
-- The moves of which the lease engine's operations consist keep its invariant.
use dimsum.Prelude.{
  ==_iff, Bool, Bool-cases, List, ap, arith, false, get_or, if◌then◌else◌, inl, inr, none, refl,
  some, subst, sym, true, ℕ, ◌+◌, ◌-◌, ◌<◌, ◌==◌, ◌∙◌, ◌≡◌, ◌≢◌, ◌⊎◌,
}
use dimsum.Prelude.Bytes.{at, bytes_eq, bytes_eq_iff, bytes_key}
use dimsum.Prelude.Maps.{
  delete, delete-IsMap, find, find-delete, find-insert, find-insert_self, insert, insert-IsMap,
  same_self,
}
use dimsum.Dhcp.Address.{Addr, same_addr, same_addr_iff, v4, addr_key}
use dimsum.Dhcp.Lease.{Engine, Entry, store}
use dimsum.Dhcp.Engine.{forget_name, mark, remove}
use dimsum.Dhcp.Sound.Entries.{IsEntry, SameOwner}
use dimsum.Dhcp.Sound.Marks.{mark_clears_one, mark_frame, mark_keeps, mark_sets}
use dimsum.Dhcp.Sound.{IsSound}

-- An entry is replaced by one of the same owner.
pub store-IsSound :
    (e : Engine) (p : ℕ) (v : Entry)
    → IsSound e
    → SameOwner v.lease (e.heap p).lease
    → IsEntry v
    → IsSound (record e { heap = store e.heap p v })
store-IsSound e p v s own ent = record {
  live = s.live;
  placed = λ a q h. elim (Bool-cases (q == p)) [
    | inl same ↦
        rw same
          (own.1 ∙ ap (λ x. (e.heap x).lease.address) (sym ((==_iff q p).0 same)) ∙ s.placed a q h)
    | inr other ↦ rw other (s.placed a q h)
  ];
  good = λ a q h. elim (Bool-cases (q == p)) [
    | inl same ↦ rw same ent
    | inr other ↦ rw other (s.good a q h)
  ];
  named = λ id q h. elim (Bool-cases (q == p)) [
    | inl same ↦ ground (arith, s.named id q h)
    | inr other ↦ rw other (s.named id q h)
  ];
  distinct = s.distinct;
  marked = s.marked;
}

-- An identity's name is given up.
pub forget_name-find :
    (m : List (List ℕ × ℕ)) (id j : List ℕ) (p q : ℕ)
    → find j (forget_name m id p) ≡ some q
    → find j m ≡ some q
unfolding forget_name
forget_name-find m id j p q h = ground (arith, find-delete id j m)

forget_name-gone :
    (m : List (List ℕ × ℕ)) (id : List ℕ) (p : ℕ) → find id (forget_name m id p) ≢ some p
unfolding forget_name
forget_name-gone m id p h = ground (arith, find-delete id id m, same_self id)

pub forget-IsSound :
    (e : Engine) (id : List ℕ) (p : ℕ)
    → IsSound e
    → IsSound (record e { by_id = forget_name e.by_id id p })
forget-IsSound e id p s = record {
  live = s.live;
  placed = s.placed;
  good = s.good;
  named = λ j q h. s.named j q (forget_name-find e.by_id id j p q h);
  distinct = s.distinct;
  marked = s.marked;
}

-- The address and the name of an entry are removed.
abbrev pub removed : Engine → ℕ → Engine
removed e p = record e {
  by_ip = delete (e.heap p).lease.address e.by_ip;
  by_id = forget_name e.by_id (e.heap p).lease.identity p;
}

find-delete-some :
    (a b : Addr) (m : List (Addr × ℕ)) (q : ℕ)
    → find b (delete a m) ≡ some q
    → (b ≢ a) × (find b m ≡ some q)
find-delete-some a b m q h = elim (Bool-cases (same_addr a b)) [
  | inl same ↦ absurd (ground (arith, find-delete a b m))
  | inr other ↦
      (λ eq. absurd (ground (arith, same_addr_iff a b)), ground (arith, find-delete a b m))
]

find-delete_other :
    (a b : Addr) (m : List (Addr × ℕ)) (q : ℕ)
    → b ≢ a
    → find b m ≡ some q
    → find b (delete a m) ≡ some q
find-delete_other a b m q ne h = elim (Bool-cases (same_addr a b)) [
  | inl same ↦ absurd (ne (sym ((same_addr_iff a b).0 same)))
  | inr other ↦ ground (arith, find-delete a b m)
]

module _ (e : Engine) (p : ℕ) (s : IsSound e)
    (own : find (e.heap p).lease.address e.by_ip ≡ some p) where
  removed_named :
      (id : List ℕ) (q : ℕ)
      → find id (removed e p).by_id ≡ some q
      → ((e.heap q).lease.identity ≡ id)
        × (find (e.heap q).lease.address (removed e p).by_ip ≡ some q)
  removed_named id q h =
      let old = forget_name-find e.by_id (e.heap p).lease.identity id p q h in
      let n = s.named id q old in
      (
        n.0,
        find-delete_other (e.heap p).lease.address (e.heap q).lease.address e.by_ip q
            (λ same.
              let there : find (e.heap p).lease.address e.by_ip ≡ some q =
                subst (λ a. find a e.by_ip ≡ some q) same n.1 in
              let qp : q ≡ p = ground (arith, own) in
              let ids : (e.heap p).lease.identity ≡ id =
                subst (λ x. (e.heap x).lease.identity ≡ id) qp n.0 in
              forget_name-gone e.by_id (e.heap p).lease.identity p (
                subst (λ i. find i (forget_name e.by_id (e.heap p).lease.identity p) ≡ some p)
                  (sym ids) (h ∙ ap some qp)))
            n.1,
      )

  pub removed-IsSound : IsSound (removed e p)
  removed-IsSound = record {
    live = λ a q h. s.live a q (find-delete-some (e.heap p).lease.address a e.by_ip q h).1;
    placed = λ a q h. s.placed a q (find-delete-some (e.heap p).lease.address a e.by_ip q h).1;
    good = λ a q h. s.good a q (find-delete-some (e.heap p).lease.address a e.by_ip q h).1;
    named = removed_named;
    distinct = delete-IsMap (e.heap p).lease.address e.by_ip s.distinct;
    marked = λ n q h. s.marked n q (find-delete-some (e.heap p).lease.address (v4 n) e.by_ip q h).1;
  }

  pub remove-IsSound : IsSound (remove e p)
  unfolding remove
  remove-IsSound =
      let r = removed-IsSound in
      let a = (e.heap p).lease.address in
      subst IsSound (sym (mark_frame (removed e p) a false)) (record {
        live = r.live;
        placed = r.placed;
        good = r.good;
        named = r.named;
        distinct = r.distinct;
        marked = λ n q h lo hi.
            mark_clears_one (removed e p) a n (find-delete-some a (v4 n) e.by_ip q h).0 lo
            ∙ r.marked n q h lo hi;
      })

-- Another address keeps its entry.
pub remove-find :
    (e : Engine) (p : ℕ) (b : Addr)
    → b ≢ (e.heap p).lease.address
    → find b (remove e p).by_ip ≡ find b e.by_ip
unfolding remove
remove-find e p b ne =
    let a = (e.heap p).lease.address in
    subst (λ x. find b x.by_ip ≡ find b e.by_ip) (sym (mark_frame (removed e p) a false))
      (elim (Bool-cases (same_addr a b)) [
        | inl same ↦ absurd (ne (sym ((same_addr_iff a b).0 same)))
        | inr other ↦ ground (arith, find-delete a b e.by_ip)
      ])

pub remove-heap : (e : Engine) (p : ℕ) → (remove e p).heap ≡ e.heap
unfolding remove
remove-heap e p = ap (λ x. x.heap) (mark_frame (removed e p) (e.heap p).lease.address false)

-- A new entry at a free address, which may take its identity's name.
module _ (e : Engine) (v : Entry) (takes : Bool) (s : IsSound e) (ent : IsEntry v)
    (free : find v.lease.address e.by_ip ≡ none) where
  abbrev pub added : Engine
  added = record e {
    heap = store e.heap e.fresh v;
    fresh = e.fresh + 1;
    by_ip = insert v.lease.address e.fresh e.by_ip;
    by_id = if takes then insert v.lease.identity e.fresh e.by_id else e.by_id;
  }

  old_entry : (q : ℕ) → q < e.fresh → added.heap q ≡ e.heap q
  old_entry q h = ground arith

  added_cases :
      (b : Addr) (q : ℕ)
      → find b added.by_ip ≡ some q
      → ((b ≡ v.lease.address) × (q ≡ e.fresh)) ⊎ (find b e.by_ip ≡ some q)
  added_cases b q h = elim (Bool-cases (same_addr v.lease.address b)) [
    | inl same ↦ inl (
      sym ((same_addr_iff v.lease.address b).0 same),
      ground (arith, find-insert v.lease.address b e.fresh e.by_ip),
    )
    | inr other ↦ inr (ground (arith, find-insert v.lease.address b e.fresh e.by_ip))
  ]

  added_kept : (b : Addr) (q : ℕ) → find b e.by_ip ≡ some q → find b added.by_ip ≡ some q
  added_kept b q h = elim (Bool-cases (same_addr v.lease.address b)) [
    | inl same ↦ absurd (ground (arith, (same_addr_iff v.lease.address b).0 same, free))
    | inr other ↦ ground (arith, find-insert v.lease.address b e.fresh e.by_ip)
  ]

  new_entry : added.heap e.fresh ≡ v
  new_entry = ground arith

  added_entry :
      (P : Addr → Entry → Type 0)
      → P v.lease.address v
      → ((b : Addr) (q : ℕ) → find b e.by_ip ≡ some q → P b (e.heap q))
      → (b : Addr) (q : ℕ) → find b added.by_ip ≡ some q
      → P b (added.heap q)
  added_entry P new old b q h = elim (added_cases b q h) [
    | inl (at, here) ↦
        subst (λ x. P x (added.heap q)) (sym at)
          (subst (λ x. P v.lease.address (added.heap x)) (sym here)
            (subst (P v.lease.address) (sym new_entry) new))
    | inr before ↦ subst (P b) (sym (old_entry q (s.live b q before))) (old b q before)
  ]

  name_cases :
      (name : Bool) (id : List ℕ) (q : ℕ)
      → find id (if name then insert v.lease.identity e.fresh e.by_id else e.by_id) ≡ some q
      → ((v.lease.identity ≡ id) × (e.fresh ≡ q)) ⊎ (find id e.by_id ≡ some q)
  name_cases false id q h = inr h
  name_cases true id q h = elim (Bool-cases (bytes_eq v.lease.identity id)) [
    | inl same ↦ inl (
      (bytes_eq_iff v.lease.identity id).0 same,
      ground (arith, find-insert v.lease.identity id e.fresh e.by_id),
    )
    | inr other ↦ inr (ground (arith, find-insert v.lease.identity id e.fresh e.by_id))
  ]

  added_named :
      (id : List ℕ) (q : ℕ)
      → find id added.by_id ≡ some q
      → ((added.heap q).lease.identity ≡ id)
        × (find (added.heap q).lease.address added.by_ip ≡ some q)
  added_named id q h = elim (name_cases takes id q h) [
    | inl (same, here) ↦
        subst
          (λ x.
            ((added.heap x).lease.identity ≡ id)
            × (find (added.heap x).lease.address added.by_ip ≡ some x))
          here
          (
            ap (λ (x : Entry). x.lease.identity) new_entry ∙ same,
            subst (λ (x : Entry). find x.lease.address added.by_ip ≡ some e.fresh) (sym new_entry)
                (find-insert_self v.lease.address e.fresh e.by_ip),
          )
    | inr before ↦
        let n = s.named id q before in
        subst (λ (x : Entry). (x.lease.identity ≡ id) × (find x.lease.address added.by_ip ≡ some q))
          (sym (old_entry q (s.live (e.heap q).lease.address q n.1)))
          (n.0, added_kept (e.heap q).lease.address q n.1)
  ]

  pub mark-added-IsSound : IsSound (mark added v.lease.address true)
  mark-added-IsSound = subst IsSound (sym (mark_frame added v.lease.address true)) (record {
    live = λ b q h. elim (added_cases b q h) [
      | inl (at, here) ↦ omega arith
      | inr before ↦ omega (arith, s.live b q before)
    ];
    placed = added_entry (λ b x. x.lease.address ≡ b) refl s.placed;
    good = added_entry (λ b x. IsEntry x) ent s.good;
    named = added_named;
    distinct = insert-IsMap v.lease.address e.fresh e.by_ip s.distinct;
    marked = λ n q h lo hi. elim (added_cases (v4 n) q h) [
      | inl (at, here) ↦
          subst (λ a. get_or (mark added a true).bitmap (n - e.start) true ≡ true) at
            (mark_sets added n lo hi)
      | inr before ↦ mark_keeps added v.lease.address (n - e.start) (s.marked n q before lo hi)
    ];
  })
