-- ===== src/Dhcp/Sound/Events.antt =====
-- The lease engine under any sequence of messages, completions and ticks, against a table of saved
-- leases that only successful commits change.
use dimsum.Prelude.{
  ==_iff, ◌==◌, ◌⊎◌, true, List, Bool, Bool-cases, List, Option, [], arith, false, if◌then◌else◌,
  inl, inr, none, not, ok, refl, some, subst, sym, ℕ, ◌&&◌, ◌∙◌, ◌∷◌, ◌≡◌,
}
use dimsum.Prelude.Maps.{find}
use dimsum.Dhcp.Address.{Addr, addr_key}
use dimsum.Dhcp.Settings.{Settings}
use dimsum.Dhcp.Lease.{
  CommitResult, Engine, Instant, Lease, Mutation, Outcome, ProbeResult, Reply, Request, Token,
  Entry, is_commit_pending, nothing, same_token,
}
use dimsum.Dhcp.Engine.{now}
use dimsum.Dhcp.Handle.{handle}
use dimsum.Dhcp.Complete.{
  complete_commit, complete_probe, find_entry, find_token, mutation_list, settle_commit, tick,
}
use dimsum.Dhcp.Recovery.{apply, new_engine, restore}
use dimsum.Dhcp.Sound.{IsSound}
use dimsum.Dhcp.Sound.Saved.{OthersWaiting, SameSaved, saved}
use dimsum.Dhcp.Sound.Fine.{Awaits, IsGranted, KeepsHorizon}
use dimsum.Dhcp.Sound.Handling.{handle-IsFine, now-IsSound, now_frame}
use dimsum.Dhcp.Sound.Completing.{complete_probe-IsFine, find_token_owned}
use dimsum.Dhcp.Sound.Committing.{settled-IsCommitted, settle_commit-IsUnsettled, with_row}
use dimsum.Dhcp.Sound.Ticking.{AllKeep, tick-IsTicked}
use dimsum.Dhcp.Sound.Applying.{apply-IsInstalled, new_engine-IsSound}
use dimsum.Dhcp.Sound.Restoring.{restore-IsRestored}

-- The entry whose mutation the result commits.
abbrev committed_by : Engine → CommitResult → Option ℕ
committed_by e result = elim (find_token e result.token) [
  | none ↦ none
  | some p ↦ if is_commit_pending (e.heap p).lease.state && not result.failed then some p else none
]

-- The specification: the table after a commit.
abbrev pub after_commit : Engine → CommitResult → Addr → Option Lease
after_commit e result a = elim (committed_by e result) [
  | none ↦ saved e a
  | some p ↦ with_row e p a
]

-- What waits for a commit still does, but for what the result's token finds.
abbrev pub StillWaiting : Engine → CommitResult → Engine → Type 0
StillWaiting e result e' =
    (a : Addr) (q : ℕ)
    → find a e.by_ip ≡ some q
    → is_commit_pending (e.heap q).lease.state ≡ true
    → ((find a e'.by_ip ≡ some q) × (e'.heap q ≡ e.heap q))
      ⊎ (same_token (e.heap q).token result.token ≡ true)

find_entry_token :
    (heap : ℕ → Entry) (t : Token) (m : List (Addr × ℕ)) (p : ℕ)
    → find_entry heap t m ≡ some p
    → same_token (heap p).token t ≡ true
unfolding find_entry
find_entry_token heap t [] p h = absurd (cc)
find_entry_token heap t ((a, q) ∷ m) p h = elim (Bool-cases (same_token (heap q).token t)) [
  | inl here ↦
      let eq : ◌≡◌ {A = Option ℕ} (some q) (some p) = ground arith in
      let same : q ≡ p = ground arith in subst (λ x. same_token (heap x).token t ≡ true) same here
  | inr later ↦ find_entry_token heap t m p (ground arith)
]

find_token_token :
    (e : Engine) (t : Token) (p : ℕ)
    → find_token e t ≡ some p
    → same_token (e.heap p).token t ≡ true
unfolding find_token
find_token_token e t p h = elim (Bool-cases (t.generation == e.generation)) [
  | inl current ↦ find_entry_token e.heap t e.by_ip p (ground arith)
  | inr old ↦ absurd (ground arith)
]

others_wait :
    (e : Engine) (result : CommitResult) (p : ℕ) (e' : Engine)
    → find_token e result.token ≡ some p
    → OthersWaiting e p e'
    → StillWaiting e result e'
others_wait e result p e' h others a q own waits = elim (Bool-cases (q == p)) [
  | inl same ↦ inr (
      subst (λ x. same_token (e.heap x).token result.token ≡ true) (sym ((==_iff q p).0 same))
        (find_token_token e result.token p h))
  | inr apart ↦ inl (others a q own (λ eq. ground (arith, ==_iff q p)) waits)
]

waiting-now :
    (e : Engine) (t : Instant) (result : CommitResult) (e' : Engine)
    → StillWaiting (now e t).0 result e'
    → StillWaiting e result e'
waiting-now e t result e' =
    subst (λ x. StillWaiting x result e' → StillWaiting e result e') (sym (now_frame e t)) (λ h. h)

pub record IsCompleted (e : Engine) (result : CommitResult) (x : Engine × Outcome) : Type 0 where
  pub sound : IsSound x.0
  pub table : (a : Addr) → saved x.0 a ≡ after_commit e result a
  pub waiting : StillWaiting e result x.0
  pub no_mutation : x.1.mutation ≡ none
  pub granted : IsGranted x.0 x.1.reply

find_token-now : (e : Engine) (t : Instant) (k : Token) → find_token (now e t).0 k ≡ find_token e k
unfolding find_token
find_token-now e t k = subst (λ x. find_token x k ≡ find_token e k) (sym (now_frame e t)) refl

after_commit-now :
    (e : Engine) (t : Instant) (result : CommitResult) (a : Addr)
    → after_commit (now e t).0 result a ≡ after_commit e result a
unfolding find_token
after_commit-now e t result a =
    subst (λ x. after_commit x result a ≡ after_commit e result a) (sym (now_frame e t)) refl

settle_commit_quiet :
    (e : Engine) (clock_ok : Bool) (result : CommitResult) (t : Instant) (p : ℕ)
    → is_commit_pending (e.heap p).lease.state && not result.failed ≡ false
    → (settle_commit e clock_ok result t p).1.mutation ≡ none
unfolding settle_commit
settle_commit_quiet e clock_ok result t p h = ground arith

pub complete_commit-IsCompleted :
    (e : Engine) (result : CommitResult) (t : Instant)
    → IsSound e
    → IsCompleted e result (complete_commit e result t)
unfolding complete_commit
complete_commit-IsCompleted e result t s = found (find_token e' result.token) refl
  where
    e' : Engine
    e' = (now e t).0

    s' : IsSound e'
    s' = now-IsSound e t s

    settled :
        (p : ℕ)
        → find_token e' result.token ≡ some p
        → IsCompleted e result (settle_commit e' (now e t).1 result t p)
    settled p h =
        let own = find_token_owned e' result.token p s' h in
        elim (Bool-cases (is_commit_pending (e'.heap p).lease.state && not result.failed)) [
          | inl finished ↦
              let c = settled-IsCommitted e' p t s' own (now e t).1 result finished in
              let spec : (a : Addr) → after_commit e' result a ≡ with_row e' p a =
                λ a. ground arith in
              record {
                sound = c.sound;
                table = λ a. c.table a ∙ sym (spec a) ∙ after_commit-now e t result a;
                waiting = waiting-now e t result (settle_commit e' (now e t).1 result t p).0 (
                    others_wait e' result p (settle_commit e' (now e t).1 result t p).0 h c.others);
                no_mutation = c.no_mutation;
                granted = c.granted;
              }
          | inr other ↦
              let f = settle_commit-IsUnsettled e' p t s' own (now e t).1 result other in
              let spec : (a : Addr) → after_commit e' result a ≡ saved e' a = λ a. ground arith in
              record {
                sound = f.sound;
                table = λ a. f.same a ∙ sym (spec a) ∙ after_commit-now e t result a;
                waiting = waiting-now e t result (settle_commit e' (now e t).1 result t p).0 (
                    others_wait e' result p (settle_commit e' (now e t).1 result t p).0 h f.others);
                no_mutation = settle_commit_quiet e' (now e t).1 result t p other;
                granted = f.granted;
              }
        ]

    found :
        (o : Option ℕ)
        → find_token e' result.token ≡ o
        → IsCompleted e result
            (elim o [ none ↦ (e', nothing) | some p ↦ settle_commit e' (now e t).1 result t p ])
    found none h = record {
      sound = s';
      table = λ a.
          let spec : after_commit e' result a ≡ saved e' a = ground arith in
          sym spec ∙ after_commit-now e t result a;
      waiting = waiting-now e t result e' (λ a q own waits. inl (own, refl));
      no_mutation = refl;
      granted = tt;
    }
    found (some p) h = settled p h

-- What reaches the engine from its owner's loop.
pub data Event : Type 0 where
  received : Request → Instant → Event
  probe_done : ProbeResult → Instant → Event
  commit_done : CommitResult → Instant → Event
  ticked : Instant → Event

abbrev pub run : Engine → Event → Engine
run e (received r t) = (handle e r t).0
run e (probe_done result t) = (complete_probe e result t).0
run e (commit_done result t) = (complete_commit e result t).0
run e (ticked t) = (tick e t).0

abbrev pub reply_to : Engine → Event → Option Reply
reply_to e (received r t) = (handle e r t).1.reply
reply_to e (probe_done result t) = (complete_probe e result t).1.reply
reply_to e (commit_done result t) = (complete_commit e result t).1.reply
reply_to e (ticked t) = none

abbrev pub mutations_of : Engine → Event → List Mutation
mutations_of e (received r t) = mutation_list (handle e r t).1
mutations_of e (probe_done result t) = mutation_list (complete_probe e result t).1
mutations_of e (commit_done result t) = mutation_list (complete_commit e result t).1
mutations_of e (ticked t) = (tick e t).1

-- The engines that a start, a recovery, configurations and events lead to.
pub data Reach : Engine → Type 0 where
  started : (s : Settings) (g : ℕ) {e : Engine} → new_engine s g ≡ ok e → Reach e
  recovered :
      {e e' : Engine} (stored : List Lease) (last_known : ℕ) (t : Instant)
      → Reach e
      → restore e stored last_known t ≡ ok e'
      → Reach e'
  configured : {e e' : Engine} (s : Settings) (g : ℕ) → Reach e → apply e s g ≡ ok e' → Reach e'
  next : {e e' : Engine} (ev : Event) → Reach e → run e ev ≡ e' → Reach e'

run-IsSound : (e : Engine) (ev : Event) → IsSound e → IsSound (run e ev)
run-IsSound e (received r t) s = (handle-IsFine e r t s).sound
run-IsSound e (probe_done result t) s = (complete_probe-IsFine e result t s).sound
run-IsSound e (commit_done result t) s = (complete_commit-IsCompleted e result t s).sound
run-IsSound e (ticked t) s = (tick-IsTicked e t s).sound

-- The lease engine is sound at all times: whatever is received, completed, configured and recovered,
-- and in whatever order, every owned address leads to one entry for that address, every client's name
-- leads to an entry of that client that owns its address, the bit of every owned address of the pool
-- is set, a bound entry is saved as it stands, an offered or probed one is not saved, and the target
-- of a pending mutation is for the same client and address and holds the address at least as long as
-- the saved lease.
pub Reach-IsSound : {e : Engine} → Reach e → IsSound e
Reach-IsSound {e} (started s g h) = new_engine-IsSound s g e h
Reach-IsSound {e = e'} (recovered {e} stored last_known t r h) =
    (restore-IsRestored e e' stored last_known t h).sound
Reach-IsSound {e = e'} (configured {e} s g r h) =
    (apply-IsInstalled e e' s g (Reach-IsSound r) h).sound
Reach-IsSound (next {e} ev r h) = subst IsSound h (run-IsSound e ev (Reach-IsSound r))

-- The specification: only a commit changes the table.
abbrev pub next_table : Engine → Event → Addr → Option Lease
next_table e (commit_done result t) a = after_commit e result a
next_table e ev a = saved e a

-- The event reports a result under the mutation's token.
abbrev pub IsReported : Mutation → Event → Type 0
IsReported m (commit_done result t) = same_token m.token result.token ≡ true
IsReported m ev = ⊥

-- Every mutation that the engine waits for, it still waits for, unless its result is reported.
abbrev pub KeepsWaiting : Engine → Event → Type 0
KeepsWaiting e ev = (m : Mutation) → Awaits e m → Awaits (run e ev) m ⊎ IsReported m ev

-- An address is acknowledged only if it is saved: whenever a reached engine answers an event with an
-- ACK that carries an address, the lease saved for that address, as the event leaves it, is bound, is
-- for that address, and is for the client that the ACK is for.
pub run-IsGranted : {e : Engine} → Reach e → (ev : Event) → IsGranted (run e ev) (reply_to e ev)
run-IsGranted {e} r (received q t) = (handle-IsFine e q t (Reach-IsSound r)).granted
run-IsGranted {e} r (probe_done result t) =
    (complete_probe-IsFine e result t (Reach-IsSound r)).granted
run-IsGranted {e} r (commit_done result t) =
    (complete_commit-IsCompleted e result t (Reach-IsSound r)).granted
run-IsGranted r (ticked t) = tt

one_keeps : (e : Engine) (o : Outcome) → KeepsHorizon e o.mutation → AllKeep e (mutation_list o)
one_keeps e o h = of_mutation o.mutation h
  where
    of_mutation :
        (m : Option Mutation)
        → KeepsHorizon e m
        → AllKeep e (elim m [ none ↦ [] | some m ↦ m ∷ [] ])
    of_mutation none h = tt
    of_mutation (some m) h = (h, tt)

-- No put shortens a saved horizon: every put that a reached engine asks for on any event has a
-- HoldUntil that is not before that of the lease saved for its address.
pub run-AllKeep : {e : Engine} → Reach e → (ev : Event) → AllKeep e (mutations_of e ev)
run-AllKeep {e} r (received q t) =
    one_keeps e (handle e q t).1 (handle-IsFine e q t (Reach-IsSound r)).horizon
run-AllKeep {e} r (probe_done result t) =
    one_keeps e (complete_probe e result t).1
      (complete_probe-IsFine e result t (Reach-IsSound r)).horizon
run-AllKeep {e} r (commit_done result t) =
    let c = complete_commit-IsCompleted e result t (Reach-IsSound r) in
    one_keeps e (complete_commit e result t).1 (subst (KeepsHorizon e) (sym c.no_mutation) tt)
run-AllKeep {e} r (ticked t) = (tick-IsTicked e t (Reach-IsSound r)).horizon

-- A new configuration that a reached engine accepts keeps every saved lease.
pub apply-SameSaved :
    {e : Engine} (e' : Engine) (s : Settings) (g : ℕ)
    → Reach e
    → apply e s g ≡ ok e'
    → SameSaved e e'
apply-SameSaved {e} e' s g r h = (apply-IsInstalled e e' s g (Reach-IsSound r) h).same
