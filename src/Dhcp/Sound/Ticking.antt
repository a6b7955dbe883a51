-- ===== src/Dhcp/Sound/Ticking.antt =====
-- The scan of Tick keeps the lease engine's invariant and its saved leases, and its mutations shorten
-- no horizon.
use dimsum.Prelude.{
  Bool-cases, List, Option, [], append_assoc, arith, false, inl, inr, leb, none, not, refl, some,
  subst, sym, ℕ, ◌&&◌, ◌++◌, ◌-◌, ◌∙◌, ◌∷◌, ◌≡◌, ◌≢◌,
}
use dimsum.Prelude.Bytes.{bytes_key}
use dimsum.Prelude.Maps.{IsMap, find, find-mem}
use dimsum.Dhcp.Address.{Addr, same_addr_iff, addr_key}
use dimsum.Dhcp.Lease.{
  Engine, Instant, Mutation, MutationKind, Outcome, is_commit_pending, is_probing, no_request,
  nothing,
}
use dimsum.Dhcp.Engine.{now, remove}
use dimsum.Dhcp.Handle.{mutate_entry}
use dimsum.Dhcp.Complete.{mutation_list, tick, tick_all, tick_entry}
use dimsum.Dhcp.Sound.{IsSound}
use dimsum.Dhcp.Sound.Moves.{remove-find}
use dimsum.Dhcp.Sound.Saved.{SameSaved, SameWaiting, SameWaiting-refl, SameWaiting-trans}
use dimsum.Dhcp.Sound.Fine.{
  Awaits, IsAwaited, IsAwaited-kept, IsFine, KeepsHorizon, before-IsFine, if-IsFine,
  mutate_entry-IsFine, quiet-IsFine,
}
use dimsum.Dhcp.Sound.Handling.{now-IsSound, now-SameSaved, now-SameWaiting}
use dimsum.Dhcp.Sound.Completing.{counted, counted-IsSound, drop-IsFine, own_of}

tick_entry-IsFine :
    (e : Engine) (p : ℕ) (t : Instant)
    → IsSound e
    → find (e.heap p).lease.address e.by_ip ≡ some p
    → IsFine e (tick_entry e t p)
unfolding tick_entry
tick_entry-IsFine e p t s own =
    let ent = s.good (e.heap p).lease.address p own in
    let quiet = quiet-IsFine e e nothing s (λ a. refl) (SameWaiting-refl e) (refl, tt) in
    if-IsFine e ((e.heap p).dirty_quarantine && not (is_commit_pending (e.heap p).lease.state)) _ _
      (λ dirty.
        let calm : is_commit_pending (e.heap p).lease.state ≡ false = ground arith in
        let held = ent.dirty_held calm (ground arith) in
        mutate_entry-IsFine e p (e.heap p).dirty_quarantine MutationKind.put_lease (e.heap p).lease
          (e.heap p).timing no_request s own calm (refl, refl) ent.saved_horizon (λ d. held)
          (λ k. ground arith) (λ k q. absurd (cc)))
      (λ clean.
        if-IsFine e (is_commit_pending (e.heap p).lease.state) _ _ (λ waits. quiet)
          (λ calm.
            if-IsFine e (is_probing (e.heap p).lease.state) _ _
              (λ probing.
                if-IsFine e (leb (e.heap p).deadline t.run) _ _
                  (λ late.
                    before-IsFine e (counted e (e.probes - 1)) _ (λ a. refl) (λ a q h w. (h, refl))
                      (drop-IsFine (counted e (e.probes - 1)) p (counted-IsSound e (e.probes - 1) s)
                        own ((ent.calm calm).fresh_offer (ground arith)) calm))
                  (λ early. quiet))
              (λ settled.
                if-IsFine e (leb (e.heap p).timing.hold t.run) _ _
                  (λ over.
                    if-IsFine e (e.heap p).durable _ _
                      (λ d.
                        mutate_entry-IsFine e p (e.heap p).dirty_quarantine
                          MutationKind.delete_lease (e.heap p).committed (e.heap p).timing
                          no_request s own calm (ent.saved_owner d) (λ d. omega arith)
                          (λ f. absurd (ground arith)) (λ k. absurd (cc)) (λ k q. absurd (cc)))
                      (λ d. drop-IsFine e p s own d calm))
                  (λ holds. quiet))))

-- What it does to one entry leaves the other addresses to their owners.
tick_entry-find :
    (e : Engine) (p : ℕ) (t : Instant) (b : Addr)
    → b ≢ (e.heap p).lease.address
    → find b (tick_entry e t p).0.by_ip ≡ find b e.by_ip
unfolding tick_entry mutate_entry
tick_entry-find e p t b ne =
    ground (arith, remove-find e p b ne, remove-find (counted e (e.probes - 1)) p b ne)

-- The addresses that are still to be scanned.
abbrev pub IsAhead : Engine → List (Addr × ℕ) → Type 0
IsAhead e [] = Unit
IsAhead e ((a, p) ∷ m) = (find a e.by_ip ≡ some p) × IsAhead e m

abbrev pub AllKeep : Engine → List Mutation → Type 0
AllKeep e [] = Unit
AllKeep e (m ∷ ms) = KeepsHorizon e (some m) × AllKeep e ms

abbrev pub AllAwaited : Engine → List Mutation → Type 0
AllAwaited e [] = Unit
AllAwaited e (m ∷ ms) = Awaits e m × AllAwaited e ms

pub record IsTicked (e : Engine) (x : Engine × List Mutation) : Type 0 where
  pub sound : IsSound x.0
  pub waits : SameWaiting e x.0
  pub awaited : AllAwaited x.0 x.1
  pub same : SameSaved e x.0
  pub horizon : AllKeep e x.1

IsAhead-step :
    (e : Engine) (a : Addr) (p : ℕ) (t : Instant) (m : List (Addr × ℕ))
    → a ≡ (e.heap p).lease.address
    → find a m ≡ none
    → IsAhead e m
    → IsAhead (tick_entry e t p).0 m
unfolding find
IsAhead-step e a p t [] eq absent h = tt
IsAhead-step e a p t ((b, q) ∷ m) eq absent h =
    let ne : b ≢ a = λ same. ground (arith, same_addr_iff b a, absent) in
    (
      tick_entry-find e p t b (λ x. ne (x ∙ sym eq)) ∙ h.0,
      IsAhead-step e a p t m eq (ground arith) h.1,
    )

-- The same for the removal of an entry.
pub IsAhead-removed :
    (e : Engine) (a : Addr) (p : ℕ) (m : List (Addr × ℕ))
    → a ≡ (e.heap p).lease.address
    → find a m ≡ none
    → IsAhead e m
    → IsAhead (remove e p) m
unfolding find
IsAhead-removed e a p [] eq absent h = tt
IsAhead-removed e a p ((b, q) ∷ m) eq absent h =
    let ne : b ≢ a = λ same. ground (arith, same_addr_iff b a, absent) in
    (remove-find e p b (λ x. ne (x ∙ sym eq)) ∙ h.0, IsAhead-removed e a p m eq (ground arith) h.1)

keeps_before : (e e' : Engine) (ms : List Mutation) → SameSaved e e' → AllKeep e' ms → AllKeep e ms
keeps_before e e' [] same h = tt
keeps_before e e' (m ∷ ms) same h =
    (λ c there put. h.0 c (same m.lease.address ∙ there) put, keeps_before e e' ms same h.1)

keeps_append :
    (e : Engine) (o : Outcome) (ms : List Mutation)
    → KeepsHorizon e o.mutation
    → AllKeep e ms
    → AllKeep e (mutation_list o ++ ms)
keeps_append e o ms h k = with_mutation o.mutation h
  where
    with_mutation :
        (m : Option Mutation)
        → KeepsHorizon e m
        → AllKeep e ((elim m [ none ↦ [] | some m ↦ m ∷ [] ]) ++ ms)
    with_mutation none h = k
    with_mutation (some m) h = (h, k)

awaited_append :
    (e : Engine) (o : Outcome) (ms : List Mutation)
    → IsAwaited e o.mutation
    → AllAwaited e ms
    → AllAwaited e (mutation_list o ++ ms)
awaited_append e o ms h k = with_mutation o.mutation h
  where
    with_mutation :
        (m : Option Mutation)
        → IsAwaited e m
        → AllAwaited e ((elim m [ none ↦ [] | some m ↦ m ∷ [] ]) ++ ms)
    with_mutation none h = k
    with_mutation (some m) h = (h, k)

tick_all-IsTicked :
    (e : Engine) (t : Instant) (m : List (Addr × ℕ))
    → IsSound e
    → IsMap m
    → IsAhead e m
    → IsTicked e (tick_all e t m)
unfolding tick_all
tick_all-IsTicked e t [] s d ahead = record {
  sound = s;
  waits = SameWaiting-refl e;
  awaited = tt;
  same = λ a. refl;
  horizon = tt;
}
tick_all-IsTicked e t ((a, p) ∷ m) s d ahead =
    let own = own_of e a p s ahead.0 in
    let one = tick_entry-IsFine e p t s own in
    let e' = (tick_entry e t p).0 in
    let rest =
      tick_all-IsTicked e' t m one.sound d.1
        (IsAhead-step e a p t m (sym (s.placed a p ahead.0)) d.0 ahead.1) in
    record {
      sound = rest.sound;
      waits = SameWaiting-trans e e' (tick_all e' t m).0 one.waits rest.waits;
      awaited =
          awaited_append (tick_all e' t m).0 (tick_entry e t p).1 (tick_all e' t m).1
            (IsAwaited-kept e' (tick_all e' t m).0 (tick_entry e t p).1.mutation rest.waits
              one.awaited)
            rest.awaited;
      same = λ b. rest.same b ∙ one.same b;
      horizon =
          keeps_append e (tick_entry e t p).1 (tick_all e' t m).1 one.horizon
            (keeps_before e e' (tick_all e' t m).1 one.same rest.horizon);
    }

pub all-IsAhead :
    (e : Engine) (pre m : List (Addr × ℕ)) → pre ++ m ≡ e.by_ip → IsMap e.by_ip → IsAhead e m
all-IsAhead e pre [] eq d = tt
all-IsAhead e pre ((a, p) ∷ m) eq d = (
  subst (λ l. find a l ≡ some p) eq (find-mem pre a p m (subst IsMap (sym eq) d)),
  all-IsAhead e (pre ++ ((a, p) ∷ [])) m (append_assoc pre ((a, p) ∷ []) m ∙ eq) d,
)

pub tick-IsTicked : (e : Engine) (t : Instant) → IsSound e → IsTicked e (tick e t)
unfolding tick
tick-IsTicked e t s =
    let e' = (now e t).0 in
    let s' = now-IsSound e t s in
    let same = now-SameSaved e t in
    elim (Bool-cases (now e t).1) [
      | inr back ↦ rw back (record {
        sound = s';
        waits = now-SameWaiting e t;
        awaited = tt;
        same = same;
        horizon = tt;
      })
      | inl forth ↦
          let all =
            tick_all-IsTicked e' t e'.by_ip s' s'.distinct
              (all-IsAhead e' [] e'.by_ip refl s'.distinct) in
          rw forth (record {
            sound = all.sound;
            waits =
                SameWaiting-trans e e' (tick_all e' t e'.by_ip).0 (now-SameWaiting e t) all.waits;
            awaited = all.awaited;
            same = λ a. all.same a ∙ same a;
            horizon = keeps_before e e' (tick_all e' t e'.by_ip).1 same all.horizon;
          })
    ]
