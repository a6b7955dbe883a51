-- ===== src/Dhcp/Sound/Saved.antt =====
-- The abstract view of the lease engine, a table of saved leases by address, and how the moves of its
-- operations change it.
use dimsum.Prelude.{
  List, ==_iff, Bool, Bool-cases, Option, ap, arith, false, ◌≢◌, if◌then◌else◌, inl, inr, none,
  refl, some, subst, sym, true, ℕ, ◌<◌, ◌==◌, ◌∙◌, ◌≡◌,
}
use dimsum.Prelude.Bytes.{bytes_key}
use dimsum.Prelude.Maps.{find, find-delete, find-insert}
use dimsum.Dhcp.Address.{Addr, same_addr, same_addr_iff, addr_key}
use dimsum.Dhcp.Lease.{Engine, Entry, Instant, Lease, Request, is_commit_pending, store}
use dimsum.Dhcp.Engine.{remove}
use dimsum.Dhcp.Handle.{probing_entry, start_probe, with_probe}
use dimsum.Dhcp.Sound.Marks.{mark_frame}
use dimsum.Dhcp.Sound.{IsSound}
use dimsum.Dhcp.Sound.Moves.{remove-find, remove-heap, removed}

-- The lease that the store holds for an address.
abbrev pub row : (ℕ → Entry) → Option ℕ → Option Lease
row heap none = none
row heap (some p) = if (heap p).durable then some (heap p).committed else none

abbrev pub saved : Engine → Addr → Option Lease
saved e a = row e.heap (find a e.by_ip)

abbrev pub SameSaved : Engine → Engine → Type 0
SameSaved e e' = (a : Addr) → saved e' a ≡ saved e a

row-store :
    (heap : ℕ → Entry) (p : ℕ) (v : Entry)
    → v.durable ≡ (heap p).durable
    → v.committed ≡ (heap p).committed
    → (o : Option ℕ) → row (store heap p v) o ≡ row heap o
row-store heap p v d c none = refl
row-store heap p v d c (some q) = elim (Bool-cases (q == p)) [
  | inl same ↦
      let eq : p ≡ q = sym ((==_iff q p).0 same) in
      subst (λ x. row (store heap p v) (some x) ≡ row heap (some x)) eq
        (let self : (p == p) ≡ true = (==_iff p p).1 refl in ground arith)
  | inr other ↦ ground arith
]

-- A change of an entry that leaves its committed lease alone.
pub store-SameSaved :
    (e : Engine) (p : ℕ) (v : Entry)
    → v.durable ≡ (e.heap p).durable
    → v.committed ≡ (e.heap p).committed
    → SameSaved e (record e { heap = store e.heap p v })
store-SameSaved e p v d c a = row-store e.heap p v d c (find a e.by_ip)

-- The removal of an entry.
pub remove-saved :
    (e : Engine) (p : ℕ) (a : Addr)
    → saved (remove e p) a ≡ (if same_addr (e.heap p).lease.address a then none else saved e a)
unfolding remove
remove-saved e p a =
    subst (λ x. saved x a ≡ (if same_addr (e.heap p).lease.address a then none else saved e a))
      (sym (mark_frame (removed e p) (e.heap p).lease.address false))
      (ap (row e.heap) (find-delete (e.heap p).lease.address a e.by_ip)
        ∙ choice (same_addr (e.heap p).lease.address a))
  where
    choice :
        (b : Bool)
        → row e.heap (if b then none else find a e.by_ip) ≡ (if b then none else saved e a)
    choice true = refl
    choice false = refl

pub remove-SameSaved :
    (e : Engine) (p : ℕ)
    → find (e.heap p).lease.address e.by_ip ≡ some p
    → (e.heap p).durable ≡ false
    → SameSaved e (remove e p)
remove-SameSaved e p own unsaved a = elim (Bool-cases (same_addr (e.heap p).lease.address a)) [
  | inl same ↦
      let eq : (e.heap p).lease.address ≡ a = (same_addr_iff (e.heap p).lease.address a).0 same in
      let gone : saved e (e.heap p).lease.address ≡ none = ap (row e.heap) own ∙ ground arith in
      remove-saved e p a ∙ rw same (sym (subst (λ x. saved e x ≡ none) eq gone))
  | inr other ↦ remove-saved e p a ∙ rw other refl
]

pub row-fresh :
    (heap : ℕ → Entry) (fresh : ℕ) (v : Entry) (o : Option ℕ)
    → ((q : ℕ) → o ≡ some q → q < fresh)
    → row (store heap fresh v) o ≡ row heap o
row-fresh heap fresh v none low = refl
row-fresh heap fresh v (some q) low = ground (arith, low q refl)

-- A new entry is not durable.
pub start_probe-SameSaved :
    (e : Engine) (r : Request) (t : Instant) (attempt : ℕ) (a : Addr)
    → IsSound e
    → find a e.by_ip ≡ none
    → SameSaved e (start_probe e r t attempt a).0
unfolding start_probe probing_entry
start_probe-SameSaved e r t attempt a s free b =
    let v = probing_entry e r t attempt a in
    let heap = store e.heap e.fresh v in
    subst (λ (x : Engine). saved x b ≡ saved e b)
      (sym (mark_frame (with_probe e r t attempt a) a true))
      (ap (row heap) (find-insert a b e.fresh e.by_ip) ∙ elim (Bool-cases (same_addr a b)) [
        | inl same ↦
            let eq : a ≡ b = (same_addr_iff a b).0 same in
            let self : (e.fresh == e.fresh) ≡ true = (==_iff e.fresh e.fresh).1 refl in
            let absent : saved e b ≡ none =
              subst (λ x. saved e x ≡ none) eq (ap (row e.heap) free) in
            ground arith
        | inr other ↦ rw other (row-fresh e.heap e.fresh v (find b e.by_ip) (s.live b))
      ])

-- The owned entries that wait for a commit stay as they are.
abbrev pub SameWaiting : Engine → Engine → Type 0
SameWaiting e e' =
    (a : Addr) (p : ℕ)
    → find a e.by_ip ≡ some p
    → is_commit_pending (e.heap p).lease.state ≡ true
    → (find a e'.by_ip ≡ some p) × (e'.heap p ≡ e.heap p)

pub SameWaiting-refl : (e : Engine) → SameWaiting e e
SameWaiting-refl e a p own waits = (own, refl)

pub SameWaiting-trans :
    (e1 e2 e3 : Engine) → SameWaiting e1 e2 → SameWaiting e2 e3 → SameWaiting e1 e3
SameWaiting-trans e1 e2 e3 one two a p own waits =
    let (own2, same) = one a p own waits in
    let waits2 : is_commit_pending (e2.heap p).lease.state ≡ true =
      ap (λ (v : Entry). is_commit_pending v.lease.state) same ∙ waits in
    let (own3, same3) = two a p own2 waits2 in (own3, same3 ∙ same)

pub store-SameWaiting :
    (e : Engine) (p : ℕ) (v : Entry)
    → is_commit_pending (e.heap p).lease.state ≡ false
    → SameWaiting e (record e { heap = store e.heap p v })
store-SameWaiting e p v calm a q own waits = elim (Bool-cases (q == p)) [
  | inl same ↦
      let eq : p ≡ q = sym ((==_iff q p).0 same) in
      absurd
        (differ (sym waits ∙ subst (λ x. is_commit_pending (e.heap x).lease.state ≡ false) eq calm))
  | inr other ↦ (own, ground arith)
]
  where
    differ : true ≡ false → ⊥
    differ h = cc

pub remove-SameWaiting :
    (e : Engine) (p : ℕ)
    → find (e.heap p).lease.address e.by_ip ≡ some p
    → is_commit_pending (e.heap p).lease.state ≡ false
    → SameWaiting e (remove e p)
remove-SameWaiting e p mine calm a q own waits =
    let ne : a ≢ (e.heap p).lease.address = λ eq.
      let both : ◌≡◌ {A = Option ℕ} (some q) (some p) =
        sym own ∙ ap (λ x. find x e.by_ip) eq ∙ mine in
      ground arith in
    (remove-find e p a ne ∙ own, ap (λ h. h q) (remove-heap e p))

pub start_probe-SameWaiting :
    (e : Engine) (r : Request) (t : Instant) (attempt : ℕ) (a : Addr)
    → IsSound e
    → find a e.by_ip ≡ none
    → SameWaiting e (start_probe e r t attempt a).0
unfolding start_probe
start_probe-SameWaiting e r t attempt a s free b q own waits =
    let v = probing_entry e r t attempt a in
    let low = s.live b q own in
    subst (λ (x : Engine). (find b x.by_ip ≡ some q) × (x.heap q ≡ e.heap q))
      (sym (mark_frame (with_probe e r t attempt a) a true))
      (elim (Bool-cases (same_addr a b)) [
        | inl same ↦
            let eq : a ≡ b = (same_addr_iff a b).0 same in
            absurd (cc (ap (λ x. find x e.by_ip) eq, own, free))
        | inr other ↦ (find-insert a b e.fresh e.by_ip ∙ rw other own, ground (arith, low))
      ])

-- The same of all entries but one.
abbrev pub OthersWaiting : Engine → ℕ → Engine → Type 0
OthersWaiting e p e' =
    (a : Addr) (q : ℕ)
    → find a e.by_ip ≡ some q
    → q ≢ p
    → is_commit_pending (e.heap q).lease.state ≡ true
    → (find a e'.by_ip ≡ some q) × (e'.heap q ≡ e.heap q)

pub store-OthersWaiting :
    (e : Engine) (p : ℕ) (v : Entry) (by_id : List (List ℕ × ℕ))
    → OthersWaiting e p (record e { heap = store e.heap p v; by_id = by_id })
store-OthersWaiting e p v by_id a q own ne waits = (own, ground (arith, ne))

pub remove-OthersWaiting :
    (e : Engine) (p : ℕ)
    → find (e.heap p).lease.address e.by_ip ≡ some p
    → OthersWaiting e p (remove e p)
remove-OthersWaiting e p mine a q own apart waits =
    let ne : a ≢ (e.heap p).lease.address = λ eq.
      let both : ◌≡◌ {A = Option ℕ} (some q) (some p) =
        sym own ∙ ap (λ x. find x e.by_ip) eq ∙ mine in
      ground (arith, apart) in
    (remove-find e p a ne ∙ own, ap (λ h. h q) (remove-heap e p))

pub OthersWaiting-then :
    (e1 : Engine) (p : ℕ) (e2 e3 : Engine)
    → OthersWaiting e1 p e2
    → SameWaiting e2 e3
    → OthersWaiting e1 p e3
OthersWaiting-then e1 p e2 e3 one two a q own ne waits =
    let (own2, same) = one a q own ne waits in
    let waits2 : is_commit_pending (e2.heap q).lease.state ≡ true =
      ap (λ (v : Entry). is_commit_pending v.lease.state) same ∙ waits in
    let (own3, same3) = two a q own2 waits2 in (own3, same3 ∙ same)
