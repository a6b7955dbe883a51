-- ===== src/Dhcp/Sound/Committing.antt =====
-- The completion of a commit keeps the lease engine's invariant. A successful one changes the saved
-- leases as its mutation says, and any other leaves them.
use dimsum.Prelude.{
  ==_iff, Bool, Bool-cases, Option, ap, arith, false, if◌then◌else◌, inl, inr, leb, ltb, none, not,
  refl, some, subst, sym, true, ℕ, ◌&&◌, ◌-◌, ◌/◌, ◌==◌, ◌||◌, ◌∙◌, ◌≡◌,
}
use dimsum.Prelude.Bytes.{bytes_key}
use dimsum.Prelude.Maps.{find, same_self}
use dimsum.Dhcp.Address.{Addr, same_addr, same_addr_iff, addr_key}
use dimsum.Dhcp.Lease.{
  CommitResult, Engine, Entry, Instant, Lease, Outcome, Request, is_commit_pending, is_quarantined,
  nothing, store,
}
use dimsum.Dhcp.Engine.{acknowledge, forget_name, remove, reply, second}
use dimsum.Dhcp.Handle.{discover}
use dimsum.Dhcp.Complete.{
  bound_entry, committed_entry, is_delete, is_discover, settle_commit, settle_put, undone_entry,
}
use dimsum.Dhcp.Sound.Entries.{
  IsEntry, IsTarget, SameOwner, bound_entry-IsEntry, committed_entry-IsEntry, undone_entry-IsEntry,
}
use dimsum.Dhcp.Sound.{IsSound}
use dimsum.Dhcp.Sound.Moves.{forget-IsSound, remove-IsSound, store-IsSound}
use dimsum.Dhcp.Sound.Saved.{
  OthersWaiting, OthersWaiting-then, SameSaved, remove-OthersWaiting, remove-saved, row, saved,
  store-OthersWaiting, store-SameSaved,
}
use dimsum.Dhcp.Sound.Fine.{IsGranted, discover-IsFine, discover-SameWaiting, discover_quiet}

-- What a successful commit of the entry `p` promises.
abbrev committed_row : Entry → Option Lease
committed_row v = if is_delete v.mutation then none else some v.pending

abbrev pub with_row : Engine → ℕ → Addr → Option Lease
with_row e p a =
    if same_addr (e.heap p).lease.address a then committed_row (e.heap p) else saved e a

pub record IsCommitted (e : Engine) (p : ℕ) (x : Engine × Outcome) : Type 0 where
  pub sound : IsSound x.0
  pub table : (a : Addr) → saved x.0 a ≡ with_row e p a
  pub others : OthersWaiting e p x.0
  pub no_mutation : x.1.mutation ≡ none
  pub granted : IsGranted x.0 x.1.reply

-- What any other result promises.
pub record IsUnsettled (e : Engine) (p : ℕ) (x : Engine × Outcome) : Type 0 where
  pub sound : IsSound x.0
  pub same : SameSaved e x.0
  pub others : OthersWaiting e p x.0
  pub granted : IsGranted x.0 x.1.reply

undone_owner :
    (v : Entry)
    → SameOwner v.pending v.lease
    → SameOwner v.previous v.lease
    → SameOwner (undone_entry v).lease v.lease
undone_owner v h k = ground arith

undone_rest :
    (v : Entry)
    → ((undone_entry v).durable ≡ v.durable) × ((undone_entry v).committed ≡ v.committed)
undone_rest v = ground arith

if-IsCommitted :
    (e : Engine) (p : ℕ) (b : Bool) (x y : Engine × Outcome)
    → (b ≡ true → IsCommitted e p x)
    → (b ≡ false → IsCommitted e p y)
    → IsCommitted e p (if b then x else y)
if-IsCommitted e p true x y f g = f refl
if-IsCommitted e p false x y f g = g refl

module _ (e : Engine) (p : ℕ) (t : Instant) (s : IsSound e)
    (own : find (e.heap p).lease.address e.by_ip ≡ some p) where
  good-IsEntry : IsEntry (e.heap p)
  good-IsEntry = s.good (e.heap p).lease.address p own

  -- The saved leases once the entry is one that is durable.
  store-saved :
      (v : Entry)
      → v.durable ≡ true
      → (a : Addr)
      → saved (record e { heap = store e.heap p v }) a
        ≡ (if same_addr (e.heap p).lease.address a then some v.committed else saved e a)
  store-saved v d a = elim (Bool-cases (same_addr (e.heap p).lease.address a)) [
    | inl same ↦
        let eq : (e.heap p).lease.address ≡ a = (same_addr_iff (e.heap p).lease.address a).0 same in
        let there : find a e.by_ip ≡ some p = subst (λ x. find x e.by_ip ≡ some p) eq own in
        let self : (p == p) ≡ true = (==_iff p p).1 refl in
        ap (row (store e.heap p v)) there ∙ ground arith
    | inr other ↦ rw other (elsewhere other (find a e.by_ip) refl)
  ]
    where
      elsewhere :
          same_addr (e.heap p).lease.address a ≡ false
          → (o : Option ℕ) → find a e.by_ip ≡ o
          → row (store e.heap p v) o ≡ row e.heap o
      elsewhere other none h = refl
      elsewhere other (some q) h = elim (Bool-cases (q == p)) [
        | inr distinct ↦ ground arith
        | inl one ↦
            let eq : (e.heap p).lease.address ≡ a =
              subst (λ x. (e.heap x).lease.address ≡ a) ((==_iff q p).0 one) (s.placed a q h) in
            absurd (ground (arith, (same_addr_iff (e.heap p).lease.address a).1 eq))
      ]

  -- The state of the entry while its mutation waits, and a put that has been committed.
  module _ (waits : is_commit_pending (e.heap p).lease.state ≡ true)
      (put : is_delete (e.heap p).mutation ≡ false) where
    aim : IsTarget (e.heap p)
    aim = good-IsEntry.target waits

    put_row :
        (a : Addr) (x : Option Lease)
        → x ≡ (if same_addr (e.heap p).lease.address a then some (e.heap p).pending else saved e a)
        → x ≡ with_row e p a
    put_row a x h = ground arith

    kept-IsSound : IsSound (record e { heap = store e.heap p (committed_entry (e.heap p)) })
    kept-IsSound =
        store-IsSound e p (committed_entry (e.heap p)) s aim.owner
          (committed_entry-IsEntry (e.heap p) good-IsEntry waits put)

    bound-IsSound :
        is_quarantined (e.heap p).pending.state ≡ false
        → IsSound (record e { heap = store e.heap p (bound_entry (e.heap p)) })
    bound-IsSound q =
        store-IsSound e p (bound_entry (e.heap p)) s aim.owner
          (bound_entry-IsEntry (e.heap p) good-IsEntry waits put q)

    bound-IsGranted :
        is_quarantined (e.heap p).pending.state ≡ false
        → IsGranted
            (record e { heap = store e.heap p (bound_entry (e.heap p)) })
            (acknowledge
              (record e { heap = store e.heap p (bound_entry (e.heap p)) })
              (bound_entry (e.heap p))
              (e.heap p).request
              t).reply
    unfolding acknowledge reply
    bound-IsGranted q =
        elim (Bool-cases (ltb (((e.heap p).pending_timing.expiry - t.run) / second) 1)) [
          | inl late ↦ rw late tt
          | inr soon ↦ rw soon (λ g. (
            (e.heap p).pending,
            store-saved (bound_entry (e.heap p)) refl (e.heap p).pending.address
                ∙ ground (arith, aim.owner.1, same_self (e.heap p).lease.address),
            sym (aim.requested put q),
            refl,
            ground (arith, aim.put_state put),
          ))
        ]

    acknowledged_quiet :
        (e' : Engine) (v : Entry) (r : Request) → (acknowledge e' v r t).mutation ≡ none
    unfolding acknowledge
    acknowledged_quiet e' v r = ground arith

    settle_put-IsCommitted : (clock_ok : Bool) → IsCommitted e p (settle_put e clock_ok t p)
    unfolding settle_put
    settle_put-IsCommitted clock_ok =
        let v = e.heap p in
        let kept : Engine = record e {
          heap = store e.heap p (committed_entry v);
          by_id = forget_name e.by_id v.pending.identity p;
        } in
        let bound : Engine = record e { heap = store e.heap p (bound_entry v) } in
        let ks : IsSound kept =
          forget-IsSound (record e { heap = store e.heap p (committed_entry v) }) v.pending.identity
            p kept-IsSound in
        let saves : (a : Addr) → saved kept a ≡ with_row e p a =
          λ a. put_row a (saved kept a) (store-saved (committed_entry v) refl a) in
        let d = discover-IsFine kept v.request t 1 ks in
        let dq = discover_quiet kept v.request t 1 in
        if-IsCommitted e p (is_quarantined v.pending.state) _ _
          (λ q.
            if-IsCommitted e p (clock_ok && e.settings.enabled && is_discover v.request.type) _ _
              (λ again. record {
                sound = d.sound;
                table = λ a. d.same a ∙ saves a;
                others =
                    OthersWaiting-then e p kept (discover kept v.request t 1).0
                      (store-OthersWaiting e p (committed_entry v)
                        (forget_name e.by_id v.pending.identity p))
                      (discover-SameWaiting kept v.request t 1 ks);
                no_mutation = dq.0;
                granted = d.granted;
              })
              (λ quiet. record {
                sound = ks;
                table = saves;
                others =
                    store-OthersWaiting e p (committed_entry v)
                      (forget_name e.by_id v.pending.identity p);
                no_mutation = refl;
                granted = tt;
              }))
          (λ b.
            if-IsCommitted e p
              (not clock_ok || leb v.pending_timing.expiry t.run || not e.settings.enabled) _ _
              (λ quiet. record {
                sound = bound-IsSound b;
                table = λ a. put_row a (saved bound a) (store-saved (bound_entry v) refl a);
                others = store-OthersWaiting e p (bound_entry v) e.by_id;
                no_mutation = refl;
                granted = tt;
              })
              (λ answered. record {
                sound = bound-IsSound b;
                table = λ a. put_row a (saved bound a) (store-saved (bound_entry v) refl a);
                others = store-OthersWaiting e p (bound_entry v) e.by_id;
                no_mutation = acknowledged_quiet bound (bound_entry v) v.request;
                granted = bound-IsGranted b;
              }))

  deleted-IsCommitted : is_delete (e.heap p).mutation ≡ true → IsCommitted e p (remove e p, nothing)
  deleted-IsCommitted gone = record {
    sound = remove-IsSound e p s own;
    table = λ a. remove-saved e p a ∙ ground arith;
    others = remove-OthersWaiting e p own;
    no_mutation = refl;
    granted = tt;
  }

  -- The result is of the mutation that waits, and a success.
  pub settled-IsCommitted :
      (clock_ok : Bool) (result : CommitResult)
      → is_commit_pending (e.heap p).lease.state && not result.failed ≡ true
      → IsCommitted e p (settle_commit e clock_ok result t p)
  unfolding settle_commit
  settled-IsCommitted clock_ok result h =
      if-IsCommitted e p (not (is_commit_pending (e.heap p).lease.state)) _ _
        (λ idle. absurd (ground arith))
        (λ waits.
          if-IsCommitted e p result.failed _ _ (λ failed. absurd (ground arith))
            (λ done.
              if-IsCommitted e p (is_delete (e.heap p).mutation) _ _ deleted-IsCommitted
                (λ put. settle_put-IsCommitted (ground arith) put clock_ok)))

  pub settle_commit-IsUnsettled :
      (clock_ok : Bool) (result : CommitResult)
      → is_commit_pending (e.heap p).lease.state && not result.failed ≡ false
      → IsUnsettled e p (settle_commit e clock_ok result t p)
  unfolding settle_commit
  settle_commit-IsUnsettled clock_ok result h =
      if-IsUnsettled (not (is_commit_pending (e.heap p).lease.state)) _ _
        (λ idle. record {
          sound = s;
          same = λ a. refl;
          others = λ a q h n w. (h, refl);
          granted = tt;
        })
        (λ waits.
          if-IsUnsettled result.failed _ _
            (λ failed.
              let calm : is_commit_pending (e.heap p).lease.state ≡ true = ground arith in
              let g = good-IsEntry.target calm in
              let v = undone_entry (e.heap p) in
              record {
                sound =
                    store-IsSound e p v s (undone_owner (e.heap p) g.owner g.previous_owner)
                      (undone_entry-IsEntry (e.heap p) good-IsEntry calm);
                same = store-SameSaved e p v (undone_rest (e.heap p)).0 (undone_rest (e.heap p)).1;
                others = store-OthersWaiting e p v e.by_id;
                granted = tt;
              })
            (λ done. absurd (ground arith)))
    where
      if-IsUnsettled :
          (b : Bool) (x y : Engine × Outcome)
          → (b ≡ true → IsUnsettled e p x)
          → (b ≡ false → IsUnsettled e p y)
          → IsUnsettled e p (if b then x else y)
      if-IsUnsettled true x y f g = f refl
      if-IsUnsettled false x y f g = g refl
