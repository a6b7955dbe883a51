-- ===== src/Dhcp/Sound/Fine.antt =====
-- What every operation of the lease engine but a successful commit promises, and that a mutation and
-- a quarantine do.
use dimsum.Prelude.{
  ==_iff, ◌==◌, Bool, Bool-cases, Option, ap, arith, false, if◌then◌else◌, inl, inr, leb, ltb, none,
  not, refl, some, subst, sym, true, ℕ, ◌&&◌, ◌||◌, ◌∙◌, ◌≡◌, ◌≤◌,
}
use dimsum.Prelude.Bytes.{bytes_key}
use dimsum.Prelude.Maps.{find}
use dimsum.Dhcp.Address.{is_valid, addr_key}
use dimsum.Dhcp.Lease.{
  Deadlines, Engine, Entry, Instant, Lease, LeaseState, MessageType, Mutation, MutationKind, store,
  Outcome, Reply, Request, is_bound, is_commit_pending, is_quarantined, no_request,
}
use dimsum.Dhcp.Engine.{next_token, candidate, forget_name, grant, identity}
use dimsum.Dhcp.Handle.{
  discover, has_room, mutate_entry, pending_entry, put_target, quarantine, quarantine_time,
  start_probe,
}
use dimsum.Dhcp.Complete.{is_delete}
use dimsum.Dhcp.Sound.Entries.{IsEntry, SameOwner, pending_entry-IsEntry}
use dimsum.Dhcp.Sound.{IsSound}
use dimsum.Dhcp.Sound.Moves.{forget-IsSound, store-IsSound}
use dimsum.Dhcp.Sound.Fresh.{candidate-IsFree, discover-IsSound}
use dimsum.Dhcp.Sound.Saved.{
  SameSaved, SameWaiting, SameWaiting-trans, row, saved, start_probe-SameSaved,
  start_probe-SameWaiting, store-SameSaved, store-SameWaiting,
}

abbrev pub is_ack : MessageType → Bool
is_ack MessageType.ack = true
is_ack m = false

abbrev pub is_put : MutationKind → Bool
is_put MutationKind.put_lease = true
is_put k = false

-- The store's row for the address does not outlast a new one.
abbrev pub KeepsHorizon : Engine → Option Mutation → Type 0
KeepsHorizon e none = Unit
KeepsHorizon e (some m) =
    (c : Lease)
    → saved e m.lease.address ≡ some c
    → is_put m.kind ≡ true
    → c.hold_until ≤ m.lease.hold_until

-- An address is acknowledged to the client to which the store has bound it.
abbrev pub IsGranted : Engine → Option Reply → Type 0
IsGranted e none = Unit
IsGranted e (some rep) =
    is_ack rep.type && is_valid rep.address ≡ true
    → (c : Lease) × (saved e rep.address ≡ some c)
      × (c.identity ≡ identity rep.request)
      × (c.address ≡ rep.address)
      × (is_bound c.state ≡ true)

-- The mutation is what the owner of its address waits for: its token, its kind and its lease.
abbrev pub Awaits : Engine → Mutation → Type 0
Awaits e m =
    (p : ℕ) × (find m.lease.address e.by_ip ≡ some p)
    × (is_commit_pending (e.heap p).lease.state ≡ true)
    × ((e.heap p).token ≡ m.token)
    × ((e.heap p).mutation ≡ some m.kind)
    × ((e.heap p).pending ≡ m.lease)

abbrev pub IsAwaited : Engine → Option Mutation → Type 0
IsAwaited e none = Unit
IsAwaited e (some m) = Awaits e m

pub Awaits-kept : (e e' : Engine) (m : Mutation) → SameWaiting e e' → Awaits e m → Awaits e' m
Awaits-kept e e' m same (p, own, waits, token, kind, lease) =
    let (own', eq) = same m.lease.address p own waits in
    (
      p,
      own',
      ap (λ (v : Entry). is_commit_pending v.lease.state) eq ∙ waits,
      ap (λ (v : Entry). v.token) eq ∙ token,
      ap (λ (v : Entry). v.mutation) eq ∙ kind,
      ap (λ (v : Entry). v.pending) eq ∙ lease,
    )

-- The entry that an address leads to is stored under its pointer.
pub stored-Awaits :
    (e : Engine) (p : ℕ) (v : Entry) (m : Mutation)
    → find m.lease.address e.by_ip ≡ some p
    → is_commit_pending v.lease.state ≡ true
    → v.token ≡ m.token
    → v.mutation ≡ some m.kind
    → v.pending ≡ m.lease
    → Awaits (record e { heap = store e.heap p v }) m
stored-Awaits e p v m own waits token kind lease =
    let self : (p == p) ≡ true = (==_iff p p).1 refl in
    let here : store e.heap p v p ≡ v = rw self refl in
    (
      p,
      own,
      ap (λ (x : Entry). is_commit_pending x.lease.state) here ∙ waits,
      ap (λ (x : Entry). x.token) here ∙ token,
      ap (λ (x : Entry). x.mutation) here ∙ kind,
      ap (λ (x : Entry). x.pending) here ∙ lease,
    )

pub IsAwaited-kept :
    (e e' : Engine) (m : Option Mutation) → SameWaiting e e' → IsAwaited e m → IsAwaited e' m
IsAwaited-kept e e' none same h = tt
IsAwaited-kept e e' (some m) same h = Awaits-kept e e' m same h

-- Of the engine and the outcome that a call leaves.
pub record IsFine (e : Engine) (x : Engine × Outcome) : Type 0 where
  pub sound : IsSound x.0
  pub waits : SameWaiting e x.0
  pub awaited : IsAwaited x.0 x.1.mutation
  pub same : SameSaved e x.0
  pub horizon : KeepsHorizon e x.1.mutation
  pub granted : IsGranted x.0 x.1.reply

abbrev pub IsNoGrant : Option Reply → Type 0
IsNoGrant none = Unit
IsNoGrant (some rep) = is_ack rep.type && is_valid rep.address ≡ false

-- No mutation, and no address acknowledged.
abbrev pub IsQuiet : Outcome → Type 0
IsQuiet o = (o.mutation ≡ none) × IsNoGrant o.reply

no_grant : (e : Engine) (o : Option Reply) → IsNoGrant o → IsGranted e o
no_grant e none h = tt
no_grant e (some rep) h = λ g. absurd (cc)

pub quiet-IsFine :
    (e e' : Engine) (o : Outcome)
    → IsSound e'
    → SameSaved e e'
    → SameWaiting e e'
    → IsQuiet o
    → IsFine e (e', o)
quiet-IsFine e e' o s same waits q = record {
  sound = s;
  waits = waits;
  awaited = subst (IsAwaited e') (sym q.0) tt;
  same = same;
  horizon = subst (KeepsHorizon e) (sym q.0) tt;
  granted = no_grant e' o.reply q.1;
}

-- An owned entry: the saved lease of its address is its committed one.
pub saved_at :
    (e : Engine) (p : ℕ)
    → find (e.heap p).lease.address e.by_ip ≡ some p
    → (c : Lease) → saved e (e.heap p).lease.address ≡ some c
    → ((e.heap p).durable ≡ true) × ((e.heap p).committed ≡ c)
saved_at e p own c h = elim (Bool-cases (e.heap p).durable) [
  | inl d ↦ (d, ground (arith, ap (row e.heap) own))
  | inr d ↦ absurd (ground (arith, ap (row e.heap) own))
]

abbrev pub flagged : Engine → ℕ → Bool → Entry
flagged e p dirty = record (e.heap p) { dirty_quarantine = dirty }

module _ (e : Engine) (p : ℕ) (dirty : Bool) (kind : MutationKind) (target : Lease)
    (timing : Deadlines) (r : Request) (s : IsSound e)
    (own : find (e.heap p).lease.address e.by_ip ≡ some p)
    (calm : is_commit_pending (e.heap p).lease.state ≡ false)
    (same : SameOwner target (e.heap p).lease)
    (low : (e.heap p).durable ≡ true → (e.heap p).committed.hold_until ≤ target.hold_until)
    (marked : dirty ≡ true → is_quarantined target.state ≡ true)
    (put : is_delete (some kind) ≡ false
      → is_bound target.state || is_quarantined target.state ≡ true)
    (asked : is_delete (some kind) ≡ false
      → is_quarantined target.state ≡ false
      → identity r ≡ target.identity) where
  abbrev target' : Lease
  target' = put_target e kind target timing

  ent : IsEntry (e.heap p)
  ent = s.good (e.heap p).lease.address p own

  target_fields :
      (target'.state ≡ target.state)
      × (target'.identity ≡ target.identity)
      × (target'.address ≡ target.address)
      × (target.hold_until ≤ target'.hold_until)
  unfolding put_target
  target_fields = ground arith

  pub mutate_entry-IsFine : IsFine e (mutate_entry e p (flagged e p dirty) kind target timing r)
  unfolding mutate_entry pending_entry
  mutate_entry-IsFine =
      let v = pending_entry e (flagged e p dirty) kind target' timing r in
      let good : IsEntry v =
        pending_entry-IsEntry e (flagged e p dirty) kind target' timing r ent.saved_owner
          ent.saved_horizon (ent.calm calm) (target_fields.1 ∙ same.0, target_fields.2 ∙ same.1)
          (λ d. omega (arith, low d, target_fields.3))
          (λ d. ap is_quarantined target_fields.0 ∙ marked d)
          (λ k. ground (arith, put k, target_fields.0))
          (λ k q. asked k (ap is_quarantined (sym target_fields.0) ∙ q) ∙ sym target_fields.1) in
      let st = store-IsSound e p v s (refl, refl) good in
      record {
        sound = record {
          live = st.live;
          placed = st.placed;
          good = st.good;
          named = st.named;
          distinct = st.distinct;
          marked = st.marked;
        };
        waits = store-SameWaiting e p v calm;
        awaited =
            let at : find target'.address e.by_ip ≡ some p =
              ap (λ a. find a e.by_ip) (target_fields.2 ∙ same.1) ∙ own in
            stored-Awaits e p v (record { token = next_token e; kind = kind; lease = target' }) at
              refl refl refl refl;
        same = store-SameSaved e p v refl refl;
        horizon = λ c h k.
            let here : saved e (e.heap p).lease.address ≡ some c =
              subst (λ a. saved e a ≡ some c) (target_fields.2 ∙ same.1) h in
            let at = saved_at e p own c here in
            omega (arith, low at.0, target_fields.3, ap (λ (x : Lease). x.hold_until) at.1);
        granted = tt;
      }

-- The engine before the operation may be another one with the same heap and addresses.
pub before-IsFine :
    (e e1 : Engine) (x : Engine × Outcome)
    → SameSaved e e1
    → SameWaiting e e1
    → IsFine e1 x
    → IsFine e x
before-IsFine e e1 x same waits f = record {
  sound = f.sound;
  waits = SameWaiting-trans e e1 x.0 waits f.waits;
  awaited = f.awaited;
  same = λ a. f.same a ∙ same a;
  horizon = moved x.1.mutation f.horizon;
  granted = f.granted;
}
  where
    moved : (m : Option Mutation) → KeepsHorizon e1 m → KeepsHorizon e m
    moved none h = tt
    moved (some m) h = λ c there put. h c (same m.lease.address ∙ there) put

pub quarantine-IsFine :
    (e : Engine) (p : ℕ) (t : Instant)
    → IsSound e
    → find (e.heap p).lease.address e.by_ip ≡ some p
    → is_commit_pending (e.heap p).lease.state ≡ false
    → IsFine e (quarantine e p t)
unfolding quarantine grant
quarantine-IsFine e p t s own calm =
    elim (Bool-cases (not (e.heap p).durable || not (is_bound (e.heap p).committed.state))) [
      | inl unbound ↦ rw unbound (
          let id = (e.heap p).lease.identity in
          let e1 : Engine = record e { by_id = forget_name e.by_id id p } in
          before-IsFine e e1 _ (λ a. refl) (λ a q h w. (h, refl))
            (held e1 (forget-IsSound e id p s) own calm))
      | inr bound ↦ rw bound (held e s own calm)
    ]
  where
    held :
        (e1 : Engine)
        → IsSound e1
        → find (e1.heap p).lease.address e1.by_ip ≡ some p
        → is_commit_pending (e1.heap p).lease.state ≡ false
        → IsFine e1 (
            mutate_entry e1 p
              (flagged e1 p true)
              MutationKind.put_lease
              (record (grant (e1.heap p) t quarantine_time).0 { state = LeaseState.quarantined })
              (grant (e1.heap p) t quarantine_time).1
              no_request)
    held e1 s own calm =
        mutate_entry-IsFine e1 p true MutationKind.put_lease
          (record (grant (e1.heap p) t quarantine_time).0 { state = LeaseState.quarantined })
          (grant (e1.heap p) t quarantine_time).1 no_request s own calm (refl, refl)
          (s.good (e1.heap p).lease.address p own).saved_horizon (λ d. refl) (λ k. refl)
          (λ k q. absurd (cc))

pub discover-SameSaved :
    (e : Engine) (r : Request) (t : Instant) (attempt : ℕ)
    → IsSound e
    → SameSaved e (discover e r t attempt).0
unfolding discover
discover-SameSaved e r t attempt s a =
    elim (Bool-cases (
      leb 2 e.probes
      || ltb 3 attempt
      || not (is_valid (candidate e r))
      || not (has_room e (candidate e r)))) [
        | inl declined ↦ rw declined refl
        | inr probing ↦ rw probing (
            start_probe-SameSaved e r t attempt (candidate e r) s
              (elim (candidate-IsFree e r s) [ inl bad ↦ absurd (ground arith) | inr free ↦ free ])
              a)
      ]

pub discover-SameWaiting :
    (e : Engine) (r : Request) (t : Instant) (attempt : ℕ)
    → IsSound e
    → SameWaiting e (discover e r t attempt).0
unfolding discover
discover-SameWaiting e r t attempt s a p own waits =
    elim (Bool-cases (
      leb 2 e.probes
      || ltb 3 attempt
      || not (is_valid (candidate e r))
      || not (has_room e (candidate e r)))) [
        | inl declined ↦ rw declined (own, refl)
        | inr probing ↦ rw probing (
            start_probe-SameWaiting e r t attempt (candidate e r) s
              (elim (candidate-IsFree e r s) [ inl bad ↦ absurd (ground arith) | inr free ↦ free ])
              a p own waits)
      ]

-- `discover` sends a probe at most.
pub discover_quiet :
    (e : Engine) (r : Request) (t : Instant) (attempt : ℕ)
    → ((discover e r t attempt).1.mutation ≡ none) × ((discover e r t attempt).1.reply ≡ none)
unfolding discover start_probe
discover_quiet e r t attempt = ground arith

pub discover-IsFine :
    (e : Engine) (r : Request) (t : Instant) (attempt : ℕ)
    → IsSound e
    → IsFine e (discover e r t attempt)
discover-IsFine e r t attempt s =
    let q = discover_quiet e r t attempt in
    quiet-IsFine e (discover e r t attempt).0 (discover e r t attempt).1
      (discover-IsSound e r t attempt s) (discover-SameSaved e r t attempt s)
      (discover-SameWaiting e r t attempt s) (q.0, subst IsNoGrant (sym q.1) tt)

pub if-IsFine :
    (e : Engine) (b : Bool) (x y : Engine × Outcome)
    → (b ≡ true → IsFine e x)
    → (b ≡ false → IsFine e y)
    → IsFine e (if b then x else y)
if-IsFine e true x y f g = f refl
if-IsFine e false x y f g = g refl
