-- ===== src/Dhcp/Sound/Handling.antt =====
-- Every message that the lease engine handles keeps its invariant and its saved leases, shortens no
-- horizon and acknowledges saved bindings only.
use dimsum.Prelude.{
  ==_iff, Bool, Bool-cases, Option, ap, arith, false, if◌then◌else◌, inl, inr, ltb, none, not, refl,
  some, subst, sym, true, ℕ, ◌&&◌, ◌*◌, ◌+◌, ◌-◌, ◌/◌, ◌==◌, ◌||◌, ◌∙◌, ◌≡◌, ◌≤◌,
}
use dimsum.Prelude.Bytes.{bytes_key}
use dimsum.Prelude.Maps.{find}
use dimsum.Dhcp.Address.{Addr, nonzero, same_addr, addr_key}
use dimsum.Dhcp.Settings.{must_parse_addr}
use dimsum.Dhcp.Lease.{
  Deadlines, Engine, Entry, Instant, Lease, LeaseState, MessageType, Mutation, MutationKind,
  Outcome, Request, is_bound, is_commit_pending, is_offered, is_quarantined, nothing, replies,
}
use dimsum.Dhcp.Engine.{
  next_token, acknowledge, eligible, grant, identity, now, remove, reply, second, valid_request,
}
use dimsum.Dhcp.Handle.{
  discover, dispatch, handle, handle_address, handle_decline, handle_discover, handle_owner,
  handle_release, handle_request, held_by, held_by_other, in_subnet, is_replay, must_wait, mutate,
  mutate_entry, owner_of, pending_entry, put_target, refuse, renewal, set_deadline, set_request,
}
use dimsum.Dhcp.Complete.{is_delete}
use dimsum.Dhcp.Sound.Entries.{IsEntry, SameOwner, set_deadline-IsEntry, set_request-IsEntry}
use dimsum.Dhcp.Sound.{IsSound}
use dimsum.Dhcp.Sound.Moves.{remove-IsSound, store-IsSound}
use dimsum.Dhcp.Sound.Saved.{
  SameSaved, SameWaiting, SameWaiting-refl, remove-SameSaved, remove-SameWaiting, row,
  store-SameSaved, store-SameWaiting,
}
use dimsum.Dhcp.Sound.Fine.{
  IsAwaited, stored-Awaits, IsFine, IsGranted, IsQuiet, KeepsHorizon, before-IsFine,
  discover-IsFine, if-IsFine, mutate_entry-IsFine, quarantine-IsFine, quiet-IsFine,
}

-- An owned entry with no commit pending, as `handle` passes it on.
module _ (e : Engine) (r : Request) (t : Instant) (s : IsSound e) where
  still : (o : Outcome) → IsQuiet o → IsFine e (e, o)
  still o q = quiet-IsFine e e o s (λ a. refl) (SameWaiting-refl e) q

  module _ (p : ℕ) (own : find (e.heap p).lease.address e.by_ip ≡ some p)
      (calm : is_commit_pending (e.heap p).lease.state ≡ false) where
    ent : IsEntry (e.heap p)
    ent = s.good (e.heap p).lease.address p own

    set_request-IsFine : (o : Outcome) → IsQuiet o → IsFine e (set_request e p r, o)
    set_request-IsFine o q =
        let v : Entry = record (e.heap p) { request = r } in
        quiet-IsFine e (set_request e p r) o
          (store-IsSound e p v s (refl, refl) (set_request-IsEntry (e.heap p) r calm ent))
          (store-SameSaved e p v refl refl) (store-SameWaiting e p v calm) q

    mutate-IsFine :
        (kind : MutationKind) (target : Lease) (timing : Deadlines)
        → SameOwner target (e.heap p).lease
        → ((e.heap p).durable ≡ true → (e.heap p).committed.hold_until ≤ target.hold_until)
        → ((e.heap p).dirty_quarantine ≡ true → is_quarantined target.state ≡ true)
        → (is_delete (some kind) ≡ false
            → is_bound target.state || is_quarantined target.state ≡ true)
        → (is_delete (some kind) ≡ false
            → is_quarantined target.state ≡ false
            → identity r ≡ target.identity)
        → IsFine e (mutate e p kind target timing r)
    mutate-IsFine kind target timing own' low dirty put asked =
        mutate_entry-IsFine e p (e.heap p).dirty_quarantine kind target timing r s own calm own' low
          dirty put asked

    discover_again :
        is_bound (e.heap p).lease.state || is_offered (e.heap p).lease.state ≡ true
        → (e.heap p).durable ≡ false
        → IsFine e (discover (remove e p) r t 1)
    discover_again active unsaved =
        before-IsFine e (remove e p) _ (remove-SameSaved e p own unsaved)
          (remove-SameWaiting e p own calm)
          (discover-IsFine (remove e p) r t 1 (remove-IsSound e p s own))

    known_discover-IsFine : IsFine e (handle_discover e r t (some p))
    unfolding handle_discover reply
    known_discover-IsFine =
        if-IsFine e _ _ _
          (λ active.
            if-IsFine e (not (eligible e r (e.heap p).lease.address)) _ _
              (λ unfit.
                if-IsFine e (not (e.heap p).durable) _ _
                  (λ unsaved. discover_again active (ground arith))
                  (λ durable.
                    mutate-IsFine MutationKind.put_lease
                      (record (e.heap p).lease { state = LeaseState.quarantined }) (e.heap p).timing
                      (refl, refl) ent.saved_horizon (λ d. refl) (λ k. refl) (λ k q. absurd (cc))))
              (λ fit.
                set_request-IsFine (replies (reply e MessageType.offer (e.heap p).lease.address r))
                  (refl, refl)))
          (λ idle.
            if-IsFine e _ _ _ (λ probing. set_request-IsFine nothing (refl, tt))
              (λ other. still nothing (refl, tt)))

    release-IsFine : IsFine e (handle_release e r (some p))
    unfolding handle_release
    release-IsFine =
        if-IsFine e
          (not (is_bound (e.heap p).lease.state)
            || not (same_addr r.ci_addr (e.heap p).lease.address))
          _ _ (λ kept. still nothing (refl, tt))
          (λ released.
            let bound : is_bound (e.heap p).lease.state ≡ true = ground arith in
            let kept = (ent.calm calm).bound_saved bound in
            mutate-IsFine MutationKind.delete_lease (e.heap p).committed (e.heap p).timing
              (ent.saved_owner kept.0) (λ d. omega arith)
              (λ d. absurd (ground (arith, ent.dirty_held calm d))) (λ k. absurd (cc))
              (λ k q. absurd (cc)))

    decline-IsFine : IsFine e (handle_decline e r t (some p))
    unfolding handle_decline
    decline-IsFine =
        if-IsFine e _ _ _ (λ ignored. still nothing (refl, tt))
          (λ declined. quarantine-IsFine e p t s own calm)

    -- The request is the owner's: its name leads to the entry, which is an offer or a binding.
    module _ (mine : (e.heap p).lease.identity ≡ identity r)
        (active : is_bound (e.heap p).lease.state || is_offered (e.heap p).lease.state ≡ true) where
      replay-IsGranted :
          is_bound (e.heap p).lease.state ≡ true → IsGranted e (acknowledge e (e.heap p) r t).reply
      unfolding acknowledge reply
      replay-IsGranted bound =
          let kept = (ent.calm calm).bound_saved bound in
          elim (Bool-cases (ltb (((e.heap p).timing.expiry - t.run) / second) 1)) [
            | inl late ↦ rw late tt
            | inr soon ↦ rw soon (λ g. (
              (e.heap p).committed,
              ground (arith, ap (row e.heap) own, kept.0),
              cc (kept.1, mine),
              cc kept.1,
              cc (kept.1, bound),
            ))
          ]

      acknowledge_quiet : (acknowledge e (e.heap p) r t).mutation ≡ none
      unfolding acknowledge
      acknowledge_quiet = ground arith

      replay-IsFine :
          is_bound (e.heap p).lease.state ≡ true → IsFine e (e, acknowledge e (e.heap p) r t)
      replay-IsFine bound = record {
        sound = s;
        waits = SameWaiting-refl e;
        awaited = subst (IsAwaited e) (sym acknowledge_quiet) tt;
        same = λ a. refl;
        horizon = subst (KeepsHorizon e) (sym acknowledge_quiet) tt;
        granted = replay-IsGranted bound;
      }

      renewal-IsFine : IsFine e (
          mutate e p MutationKind.put_lease
            (renewal e (e.heap p) r t).0
            (renewal e (e.heap p) r t).1
            r)
      unfolding renewal grant
      renewal-IsFine =
          mutate-IsFine MutationKind.put_lease (renewal e (e.heap p) r t).0
            (renewal e (e.heap p) r t).1 (refl, refl) ent.saved_horizon
            (λ d. absurd (ground (arith, ent.dirty_held calm d))) (λ k. refl) (λ k q. sym mine)

      renewed-IsFine :
          (target : Lease) (timing : Deadlines) (d : ℕ)
          → (put_target e MutationKind.put_lease target timing).address ≡ (e.heap p).lease.address
          → IsFine e (mutate e p MutationKind.put_lease target timing r)
          → IsFine e (
            set_deadline (mutate e p MutationKind.put_lease target timing r).0 p d,
            (mutate e p MutationKind.put_lease target timing r).1,
          )
      unfolding mutate_entry pending_entry
      renewed-IsFine target timing d place f =
          let e' = (mutate e p MutationKind.put_lease target timing r).0 in
          let v : Entry = record (e'.heap p) { deadline = d } in
          record {
            sound =
                store-IsSound e' p v f.sound (refl, refl)
                  (set_deadline-IsEntry (e'.heap p) d
                    (f.sound.good (e.heap p).lease.address p own));
            waits = λ a q h w. elim (Bool-cases (q == p)) [
              | inl same ↦
                  let eq : q ≡ p = (==_iff q p).0 same in
                  absurd (cc (w, calm, ap (λ x. is_commit_pending (e.heap x).lease.state) eq))
              | inr other ↦ (h, ground arith)
            ];
            awaited =
                let m : Mutation = record {
                  token = next_token e;
                  kind = MutationKind.put_lease;
                  lease = put_target e MutationKind.put_lease target timing;
                } in
                let self : (p == p) ≡ true = (==_iff p p).1 refl in
                stored-Awaits e' p v m (ap (λ a. find a e.by_ip) place ∙ own) (rw self refl)
                  (rw self refl) (rw self refl) (rw self refl);
            same = λ a. store-SameSaved e' p v refl refl a ∙ f.same a;
            horizon = f.horizon;
            granted = tt;
          }

      renewal_place :
          (put_target e MutationKind.put_lease
            (renewal e (e.heap p) r t).0
            (renewal e (e.heap p) r t).1).address
          ≡ (e.heap p).lease.address
      unfolding renewal grant put_target
      renewal_place = refl

      owner-IsFine : (a : Addr) → IsFine e (handle_owner e r t a p)
      unfolding handle_owner reply
      owner-IsFine a =
          if-IsFine e
            (nonzero r.server_id
              && is_offered (e.heap p).lease.state
              && not ((e.heap p).request.xid == r.xid))
            _ _ (λ stale. still nothing (refl, tt))
            (λ h.
              if-IsFine e (not (eligible e r a)) _ _ (λ unfit. still (refuse e r) (refl, refl))
                (λ fit.
                  if-IsFine e (is_offered (e.heap p).lease.state && not (nonzero r.server_id)) _ _
                    (λ unaddressed. still nothing (refl, tt))
                    (λ addressed.
                      if-IsFine e (is_replay e (e.heap p) r t) _ _
                        (λ again. replay-IsFine (ground arith))
                        (λ anew.
                          renewed-IsFine (renewal e (e.heap p) r t).0 (renewal e (e.heap p) r t).1
                            (t.run + e.settings.lease_seconds * second) renewal_place
                            renewal-IsFine))))

-- What `handle` knows of the entry that the identity's name leads to.
abbrev Known : Engine → Request → Option ℕ → Type 0
Known e r none = Unit {0}
Known e r (some p) =
    (find (e.heap p).lease.address e.by_ip ≡ some p)
    × ((e.heap p).lease.identity ≡ identity r)
    × (is_commit_pending (e.heap p).lease.state ≡ false)

module _ (e : Engine) (r : Request) (t : Instant) (s : IsSound e) where
  handle_address-IsFine :
      (v : Option ℕ) (a : Addr) → Known e r v → IsFine e (handle_address e r t v a)
  unfolding handle_address reply
  handle_address-IsFine v a known =
      if-IsFine e (not (nonzero a)) _ _ (λ no_address. still e r t s nothing (refl, tt))
        (λ some_address.
          if-IsFine e (not (in_subnet e a) || (held_by e a (identity r) && not (eligible e r a))) _
            _ (λ refused. still e r t s (refuse e r) (refl, refl)) (λ accepted. owned v known))
    where
      unowned : IsFine e (
          if not (in_subnet e a) || held_by_other e a (identity r)
          then (e, refuse e r)
          else (e, nothing))
      unowned =
          if-IsFine e (not (in_subnet e a) || held_by_other e a (identity r)) _ _
            (λ other. still e r t s (refuse e r) (refl, refl))
            (λ unknown. still e r t s nothing (refl, tt))

      owned :
          (v : Option ℕ)
          → Known e r v
          → IsFine e (elim (owner_of e a v) [
            | some p ↦ handle_owner e r t a p
            | none ↦
                if not (in_subnet e a) || held_by_other e a (identity r)
                then (e, refuse e r)
                else (e, nothing)
          ])
      owned none known = unowned
      owned (some p) known =
          elim (Bool-cases (
            not (same_addr (e.heap p).lease.address a)
            || (not (is_bound (e.heap p).lease.state)
                && not (is_offered (e.heap p).lease.state)))) [
                  | inl stranger ↦ rw stranger unowned
                  | inr owner ↦
                      rw owner (owner-IsFine e r t s p known.0 known.2 known.1 (ground arith) a)
                ]

  handle_request-IsFine : (v : Option ℕ) → Known e r v → IsFine e (handle_request e r t v)
  unfolding handle_request
  handle_request-IsFine v known =
      if-IsFine e (nonzero r.ci_addr) _ _
        (λ renewing.
          if-IsFine e (nonzero r.requested_ip || nonzero r.server_id) _ _
            (λ mixed. still e r t s nothing (refl, tt))
            (λ plain. handle_address-IsFine v r.ci_addr known))
        (λ selecting. handle_address-IsFine v r.requested_ip known)

  dispatch-IsFine : (v : Option ℕ) (m : MessageType) → Known e r v → IsFine e (dispatch e r t v m)
  unfolding dispatch handle_discover handle_release handle_decline reply
  dispatch-IsFine none MessageType.discover known = discover-IsFine e r t 1 s
  dispatch-IsFine (some p) MessageType.discover known =
      known_discover-IsFine e r t s p known.0 known.2
  dispatch-IsFine v MessageType.request known = handle_request-IsFine v known
  dispatch-IsFine none MessageType.release known = still e r t s nothing (refl, tt)
  dispatch-IsFine (some p) MessageType.release known = release-IsFine e r t s p known.0 known.2
  dispatch-IsFine none MessageType.decline known = still e r t s nothing (refl, tt)
  dispatch-IsFine (some p) MessageType.decline known = decline-IsFine e r t s p known.0 known.2
  dispatch-IsFine v MessageType.inform known = elim (Bool-cases (nonzero r.ci_addr)) [
    | inl there ↦ rw there (still e r t s _ (refl, refl))
    | inr absent ↦ rw absent (still e r t s nothing (refl, tt))
  ]
  dispatch-IsFine v MessageType.unset known = still e r t s nothing (refl, tt)
  dispatch-IsFine v MessageType.offer known = still e r t s nothing (refl, tt)
  dispatch-IsFine v MessageType.ack known = still e r t s nothing (refl, tt)
  dispatch-IsFine v MessageType.nak known = still e r t s nothing (refl, tt)
  dispatch-IsFine v (MessageType.other n) known = still e r t s nothing (refl, tt)

-- The clock's reading leaves all but two fields alone.
abbrev pub read : Engine → Option Instant → Bool → Engine
read e last suspended = record e { last_time = last; suspended = suspended }

pub now_frame :
    (e : Engine) (t : Instant) → (now e t).0 ≡ read e (now e t).0.last_time (now e t).0.suspended
unfolding now
now_frame e t = elim (Bool-cases (elim e.last_time [ none ↦ false | some l ↦ ltb t.wall l.wall ])) [
  | inl back ↦ ground arith
  | inr forth ↦ ground arith
]

pub read-IsSound :
    (e : Engine) (last : Option Instant) (suspended : Bool)
    → IsSound e
    → IsSound (read e last suspended)
read-IsSound e last suspended s = record {
  live = s.live;
  placed = s.placed;
  good = s.good;
  named = s.named;
  distinct = s.distinct;
  marked = s.marked;
}

pub now-IsSound : (e : Engine) (t : Instant) → IsSound e → IsSound (now e t).0
now-IsSound e t s = subst IsSound (sym (now_frame e t)) (read-IsSound e _ _ s)

pub now-SameSaved : (e : Engine) (t : Instant) → SameSaved e (now e t).0
now-SameSaved e t = subst (SameSaved e) (sym (now_frame e t)) (λ a. refl)

pub now-SameWaiting : (e : Engine) (t : Instant) → SameWaiting e (now e t).0
now-SameWaiting e t = subst (SameWaiting e) (sym (now_frame e t)) (λ a p h w. (h, refl))

pub now_settings : (e : Engine) (t : Instant) → (now e t).0.settings ≡ e.settings
now_settings e t = subst (λ x. x.settings ≡ e.settings) (sym (now_frame e t)) refl

Known-named :
    (e : Engine) (r : Request) (t : Instant) (v : Option ℕ)
    → IsSound e
    → find (identity r) e.by_id ≡ v
    → must_wait e t v ≡ false
    → Known e r v
Known-named e r t none s named calm = tt
Known-named e r t (some p) s named calm =
    let n = s.named (identity r) p named in (n.1, n.0, ground arith)

-- `Handle` on any message at any time.
pub handle-IsFine : (e : Engine) (r : Request) (t : Instant) → IsSound e → IsFine e (handle e r t)
unfolding handle
handle-IsFine e r t s =
    let e' = (now e t).0 in
    let s' = now-IsSound e t s in
    let v = find (identity r) e'.by_id in
    let quiet = still e' r t s' nothing (refl, tt) in
    before-IsFine e e' (handle e r t) (now-SameSaved e t) (now-SameWaiting e t) (
      if-IsFine e' (not (now e t).1 || not e'.settings.enabled || not (valid_request r)) _ _
        (λ ignored. quiet)
        (λ accepted.
          if-IsFine e'
            (nonzero r.server_id
              && not (same_addr r.server_id (must_parse_addr e'.settings.server_ip)))
            _ _ (λ elsewhere. quiet)
            (λ here.
              if-IsFine e' (must_wait e' t v) _ _ (λ waits. quiet)
                (λ ready.
                  dispatch-IsFine e' r t s' v r.type (Known-named e' r t v s' refl ready)))))
