-- ===== src/Dhcp/Sound/Entries.antt =====
-- What holds of every entry of the lease engine, and that each change of an entry keeps it.
use dimsum.Prelude.{Bool, arith, false, refl, some, true, ℕ, ◌||◌, ◌≡◌, ◌≤◌}
use dimsum.Dhcp.Address.{Addr}
use dimsum.Dhcp.Lease.{
  Deadlines, Engine, Entry, Instant, Lease, MutationKind, Request, is_bound, is_commit_pending,
  is_offered, is_probing, is_quarantined,
}
use dimsum.Dhcp.Engine.{identity}
use dimsum.Dhcp.Handle.{pending_entry, probing_entry}
use dimsum.Dhcp.Complete.{bound_entry, committed_entry, is_delete, offered_entry, undone_entry}
use dimsum.Dhcp.Recovery.{restored_entry}

-- The same client at the same address.
abbrev pub SameOwner : Lease → Lease → Type 0
SameOwner l k = (l.identity ≡ k.identity) × (l.address ≡ k.address)

-- A lease that an entry may hold while no commit is pending.
pub record IsSettled (durable : Bool) (committed l : Lease) : Type 0 where
  pub not_pending : is_commit_pending l.state ≡ false
  pub bound_saved : is_bound l.state ≡ true → (durable ≡ true) × (committed ≡ l)
  pub fresh_offer : is_offered l.state || is_probing l.state ≡ true → durable ≡ false

-- The target of a pending mutation.
pub record IsTarget (v : Entry) : Type 0 where
  pub owner : SameOwner v.pending v.lease
  pub previous_owner : SameOwner v.previous v.lease
  pub settled : v.dirty_quarantine ≡ false → IsSettled v.durable v.committed v.previous
  pub previous_horizon : v.durable ≡ true → v.committed.hold_until ≤ v.previous.hold_until
  pub horizon : v.durable ≡ true → v.committed.hold_until ≤ v.pending.hold_until
  pub dirty_state : v.dirty_quarantine ≡ true → is_quarantined v.pending.state ≡ true
  pub put_state :
      is_delete v.mutation ≡ false
      → is_bound v.pending.state || is_quarantined v.pending.state ≡ true
  pub requested :
      is_delete v.mutation ≡ false
      → is_quarantined v.pending.state ≡ false
      → identity v.request ≡ v.pending.identity

pub record IsEntry (v : Entry) : Type 0 where
  pub saved_owner : v.durable ≡ true → SameOwner v.committed v.lease
  pub saved_horizon : v.durable ≡ true → v.committed.hold_until ≤ v.lease.hold_until
  pub calm : is_commit_pending v.lease.state ≡ false → IsSettled v.durable v.committed v.lease
  pub dirty_held :
      is_commit_pending v.lease.state ≡ false
      → v.dirty_quarantine ≡ true
      → is_quarantined v.lease.state ≡ true
  pub target : is_commit_pending v.lease.state ≡ true → IsTarget v

pub probing_entry-IsEntry :
    (e : Engine) (r : Request) (t : Instant) (attempt : ℕ) (a : Addr)
    → IsEntry (probing_entry e r t attempt a)
unfolding probing_entry
probing_entry-IsEntry e r t attempt a = ground arith

-- A mutation of an entry that has none pending. The flag of a quarantine may just have been set.
pub pending_entry-IsEntry :
    (e : Engine) (v : Entry) (kind : MutationKind) (target : Lease) (timing : Deadlines)
    (r : Request)
    → (v.durable ≡ true → SameOwner v.committed v.lease)
    → (v.durable ≡ true → v.committed.hold_until ≤ v.lease.hold_until)
    → IsSettled v.durable v.committed v.lease
    → SameOwner target v.lease
    → (v.durable ≡ true → v.committed.hold_until ≤ target.hold_until)
    → (v.dirty_quarantine ≡ true → is_quarantined target.state ≡ true)
    → (is_delete (some kind) ≡ false → is_bound target.state || is_quarantined target.state ≡ true)
    → (is_delete (some kind) ≡ false
        → is_quarantined target.state ≡ false
        → identity r ≡ target.identity)
    → IsEntry (pending_entry e v kind target timing r)
unfolding pending_entry
pending_entry-IsEntry e v kind target timing r own hor calm same low dirty put asked = record {
  saved_owner = own;
  saved_horizon = hor;
  calm = λ h. absurd (cc);
  dirty_held = λ h. absurd (cc);
  target = λ h. record {
    owner = same;
    previous_owner = (refl, refl);
    settled = λ d. calm;
    previous_horizon = hor;
    horizon = low;
    dirty_state = dirty;
    put_state = put;
    requested = asked;
  };
}

-- Fields that the invariant does not read.
pub set_request-IsEntry :
    (v : Entry) (r : Request)
    → is_commit_pending v.lease.state ≡ false
    → IsEntry v
    → IsEntry (record v { request = r })
set_request-IsEntry v r calm h = ground arith

pub set_deadline-IsEntry : (v : Entry) (d : ℕ) → IsEntry v → IsEntry (record v { deadline = d })
set_deadline-IsEntry v d h = ground arith

pub clear_ack-IsEntry : (v : Entry) → IsEntry v → IsEntry (record v { has_ack = false })
clear_ack-IsEntry v h = ground arith

pub offered_entry-IsEntry :
    (v : Entry) (t : Instant)
    → IsEntry v
    → is_probing v.lease.state ≡ true
    → IsEntry (offered_entry v t)
offered_entry-IsEntry v t h p = ground (arith, h.calm, h.saved_owner)

pub undone_entry-IsEntry :
    (v : Entry) → IsEntry v → is_commit_pending v.lease.state ≡ true → IsEntry (undone_entry v)
undone_entry-IsEntry v h p = let g = h.target p in ground arith

pub committed_entry-IsEntry :
    (v : Entry)
    → IsEntry v
    → is_commit_pending v.lease.state ≡ true
    → is_delete v.mutation ≡ false
    → IsEntry (committed_entry v)
committed_entry-IsEntry v h p put = let g = h.target p in ground (arith, g.put_state put)

pub bound_entry-IsEntry :
    (v : Entry)
    → IsEntry v
    → is_commit_pending v.lease.state ≡ true
    → is_delete v.mutation ≡ false
    → is_quarantined v.pending.state ≡ false
    → IsEntry (bound_entry v)
bound_entry-IsEntry v h p put q = let g = h.target p in ground (arith, g.put_state put)

pub restored_entry-IsEntry :
    (t : Instant) (l : Lease)
    → is_bound l.state || is_quarantined l.state ≡ true
    → IsEntry (restored_entry t l)
restored_entry-IsEntry t l h = ground arith
