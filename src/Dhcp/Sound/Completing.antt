-- ===== src/Dhcp/Sound/Completing.antt =====
-- The completion of a probe keeps the lease engine's invariant and its saved leases.
use dimsum.Prelude.{
  Bool, Bool-cases, List, Option, [], append_assoc, arith, false, inl, inr, leb, none, not, refl,
  some, subst, sym, true, ℕ, ◌++◌, ◌+◌, ◌-◌, ◌==◌, ◌||◌, ◌∙◌, ◌∷◌, ◌≡◌,
}
use dimsum.Prelude.Bytes.{bytes_key}
use dimsum.Prelude.Maps.{IsMap, find, find-mem}
use dimsum.Dhcp.Address.{Addr, addr_key}
use dimsum.Dhcp.Lease.{
  Engine, Entry, Instant, MessageType, Outcome, ProbeResult, Token, is_commit_pending, is_probing,
  nothing, replies, same_token, store,
}
use dimsum.Dhcp.Engine.{now, remove, reply}
use dimsum.Dhcp.Handle.{discover, mutate_entry, quarantine}
use dimsum.Dhcp.Complete.{
  complete_probe, find_entry, find_token, offered_entry, replace_candidate, settle_probe,
}
use dimsum.Dhcp.Sound.Entries.{IsEntry, SameOwner, offered_entry-IsEntry}
use dimsum.Dhcp.Sound.{IsSound}
use dimsum.Dhcp.Sound.Moves.{remove-IsSound, store-IsSound}
use dimsum.Dhcp.Sound.Fresh.{discover-IsSound}
use dimsum.Dhcp.Sound.Saved.{
  SameWaiting-refl, SameWaiting-trans, remove-SameSaved, remove-SameWaiting, store-SameSaved,
  store-SameWaiting,
}
use dimsum.Dhcp.Sound.Fine.{
  IsAwaited-kept, discover-SameWaiting, IsFine, IsGranted, IsQuiet, before-IsFine,
  discover-SameSaved, if-IsFine, quarantine-IsFine, quiet-IsFine,
}
use dimsum.Dhcp.Sound.Handling.{now-IsSound, now-SameSaved, now-SameWaiting}

-- An entry that `find` returns is owned.
find_entry_owned :
    (heap : ℕ → Entry) (t : Token) (pre m : List (Addr × ℕ)) (p : ℕ)
    → IsMap (pre ++ m)
    → find_entry heap t m ≡ some p
    → (a : Addr) × (find a (pre ++ m) ≡ some p)
unfolding find_entry
find_entry_owned heap t pre [] p d h = absurd (cc)
find_entry_owned heap t pre ((a, q) ∷ m) p d h = elim (Bool-cases (same_token (heap q).token t)) [
  | inl here ↦ (a, find-mem pre a q m d ∙ ground arith)
  | inr later ↦
      let eq : (pre ++ ((a, q) ∷ [])) ++ m ≡ pre ++ ((a, q) ∷ m) =
        append_assoc pre ((a, q) ∷ []) m in
      subst (λ l. (b : Addr) × (find b l ≡ some p)) eq
        (find_entry_owned heap t (pre ++ ((a, q) ∷ [])) m p (subst IsMap (sym eq) d) (ground arith))
]

pub own_of :
    (e : Engine) (a : Addr) (p : ℕ)
    → IsSound e
    → find a e.by_ip ≡ some p
    → find (e.heap p).lease.address e.by_ip ≡ some p
own_of e a p s h = subst (λ x. find x e.by_ip ≡ some p) (sym (s.placed a p h)) h

pub find_token_owned :
    (e : Engine) (t : Token) (p : ℕ)
    → IsSound e
    → find_token e t ≡ some p
    → find (e.heap p).lease.address e.by_ip ≡ some p
unfolding find_token
find_token_owned e t p s h = elim (Bool-cases (t.generation == e.generation)) [
  | inl current ↦
      let f = find_entry_owned e.heap t [] e.by_ip p s.distinct (ground arith) in
      own_of e f.0 p s f.1
  | inr old ↦ absurd (ground arith)
]

-- The count of probes is no part of the invariant.
abbrev pub counted : Engine → ℕ → Engine
counted e n = record e { probes = n }

pub counted-IsSound : (e : Engine) (n : ℕ) → IsSound e → IsSound (counted e n)
counted-IsSound e n s = record {
  live = s.live;
  placed = s.placed;
  good = s.good;
  named = s.named;
  distinct = s.distinct;
  marked = s.marked;
}

pub drop-IsFine :
    (e : Engine) (p : ℕ)
    → IsSound e
    → find (e.heap p).lease.address e.by_ip ≡ some p
    → (e.heap p).durable ≡ false
    → is_commit_pending (e.heap p).lease.state ≡ false
    → IsFine e (remove e p, nothing)
drop-IsFine e p s own unsaved calm =
    quiet-IsFine e (remove e p) nothing (remove-IsSound e p s own)
      (remove-SameSaved e p own unsaved) (remove-SameWaiting e p own calm) (refl, tt)

module _ (e : Engine) (p : ℕ) (t : Instant) (s : IsSound e)
    (own : find (e.heap p).lease.address e.by_ip ≡ some p) where
  ent : IsEntry (e.heap p)
  ent = s.good (e.heap p).lease.address p own

  -- An entry is replaced and nothing is said.
  pub replaced-IsFine :
      (v : Entry) (o : Outcome)
      → SameOwner v.lease (e.heap p).lease
      → IsEntry v
      → v.durable ≡ (e.heap p).durable
      → v.committed ≡ (e.heap p).committed
      → is_commit_pending (e.heap p).lease.state ≡ false
      → IsQuiet o
      → IsFine e (record e { heap = store e.heap p v }, o)
  replaced-IsFine v o same good d c calm q =
      quiet-IsFine e (record e { heap = store e.heap p v }) o (store-IsSound e p v s same good)
        (store-SameSaved e p v d c) (store-SameWaiting e p v calm) q

  quarantine_silent : (quarantine e p t).1.reply ≡ none
  unfolding quarantine mutate_entry
  quarantine_silent = refl

  pub replace_candidate-IsFine :
      is_commit_pending (e.heap p).lease.state ≡ false → IsFine e (replace_candidate e p t)
  unfolding replace_candidate
  replace_candidate-IsFine calm =
      let v = e.heap p in
      let q = quarantine-IsFine e p t s own calm in
      let e1 = (quarantine e p t).0 in
      record {
        sound = discover-IsSound e1 v.request t (v.attempts + 1) q.sound;
        waits =
            SameWaiting-trans e e1 (discover e1 v.request t (v.attempts + 1)).0 q.waits
              (discover-SameWaiting e1 v.request t (v.attempts + 1) q.sound);
        awaited =
            IsAwaited-kept e1 (discover e1 v.request t (v.attempts + 1)).0
              (quarantine e p t).1.mutation
              (discover-SameWaiting e1 v.request t (v.attempts + 1) q.sound) q.awaited;
        same = λ a. discover-SameSaved e1 v.request t (v.attempts + 1) q.sound a ∙ q.same a;
        horizon = q.horizon;
        granted =
            subst (IsGranted (discover e1 v.request t (v.attempts + 1)).0) (sym quarantine_silent)
              tt;
      }

module _ (e : Engine) (p : ℕ) (t : Instant) (s : IsSound e)
    (own : find (e.heap p).lease.address e.by_ip ≡ some p) where
  pub settle_probe-IsFine :
      (clock_ok : Bool) (result : ProbeResult) → IsFine e (settle_probe e clock_ok result t p)
  unfolding settle_probe reply
  settle_probe-IsFine clock_ok result =
      if-IsFine e (not (is_probing (e.heap p).lease.state)) _ _
        (λ late. quiet-IsFine e e nothing s (λ a. refl) (SameWaiting-refl e) (refl, tt))
        (λ probed.
          let calm : is_commit_pending (e.heap p).lease.state ≡ false = ground arith in
          let probing : is_probing (e.heap p).lease.state ≡ true = ground arith in
          let unsaved = ((ent e p t s own).calm calm).fresh_offer (ground arith) in
          let e' = counted e (e.probes - 1) in
          let s' = counted-IsSound e (e.probes - 1) s in
          if-IsFine e (not clock_ok || result.failed || leb (e.heap p).deadline t.run) _ _
            (λ failed.
              before-IsFine e e' _ (λ a. refl) (λ a q h w. (h, refl))
                (drop-IsFine e' p s' own unsaved calm))
            (λ answered.
              if-IsFine e result.conflict _ _
                (λ taken.
                  before-IsFine e e' _ (λ a. refl) (λ a q h w. (h, refl))
                    (replace_candidate-IsFine e' p t s' own calm))
                (λ free.
                  before-IsFine e e' _ (λ a. refl) (λ a q h w. (h, refl))
                    (replaced-IsFine e' p t s' own (offered_entry (e.heap p) t)
                      (replies
                        (reply e' MessageType.offer (e.heap p).lease.address (e.heap p).request))
                      (refl, refl) (offered_entry-IsEntry (e.heap p) t (ent e p t s own) probing)
                      refl refl calm (refl, refl)))))

pub complete_probe-IsFine :
    (e : Engine) (result : ProbeResult) (t : Instant)
    → IsSound e
    → IsFine e (complete_probe e result t)
unfolding complete_probe
complete_probe-IsFine e result t s =
    before-IsFine e (now e t).0 (complete_probe e result t) (now-SameSaved e t)
      (now-SameWaiting e t) (found (find_token (now e t).0 result.token) refl)
  where
    found :
        (o : Option ℕ)
        → find_token (now e t).0 result.token ≡ o
        → IsFine (now e t).0 (elim o [
          | none ↦ ((now e t).0, nothing)
          | some p ↦ settle_probe (now e t).0 (now e t).1 result t p
        ])
    found none h =
        quiet-IsFine (now e t).0 (now e t).0 nothing (now-IsSound e t s) (λ a. refl)
          (SameWaiting-refl (now e t).0) (refl, tt)
    found (some p) h =
        settle_probe-IsFine (now e t).0 p t (now-IsSound e t s)
          (find_token_owned (now e t).0 result.token p (now-IsSound e t s) h) (now e t).1 result
