-- ===== src/Dhcp/Sound/Applying.antt =====
-- A new configuration leaves the lease engine sound and keeps every saved lease.
use dimsum.Prelude.{
  Bool, Bool-cases, List, Result, [], append_assoc, arith, bind-ok, err, false, guard, guard-ok,
  inl, inr, leb, length, ltb, not, ok, ok-injective, panic, refl, some, stuck, subst, sym, true, ℕ,
  ◌++◌, ◌==◌, ◌>>=◌, ◌>>◌, ◌∙◌, ◌∷◌, ◌≡◌,
}
use dimsum.Prelude.Bytes.{bytes_key}
use dimsum.Prelude.Maps.{IsMap, find, find-mem, has}
use dimsum.Dhcp.Address.{Addr, same_addr, addr_key}
use dimsum.Dhcp.Settings.{Settings, capacity}
use dimsum.Dhcp.Settings.Validate.{validate_settings, validate_transition}
use dimsum.Dhcp.Lease.{Engine, Entry, store}
use dimsum.Dhcp.Engine.{remove, retained_topology}
use dimsum.Dhcp.Recovery.{
  EngineError, any_unsettled, apply, as_engine_error, blank_engine, clear_acks, count_reservations,
  drop_unkept, is_kept, keep_entries, mutation_pending, new_engine, old_generation, over_capacity,
  topology_conflict, zero_generation,
}
use dimsum.Dhcp.Sound.Entries.{clear_ack-IsEntry}
use dimsum.Dhcp.Sound.{IsSound}
use dimsum.Dhcp.Sound.Moves.{remove-IsSound, remove-heap, store-IsSound}
use dimsum.Dhcp.Sound.Saved.{remove-SameSaved, store-SameSaved}
use dimsum.Dhcp.Sound.Completing.{counted-IsSound, own_of}
use dimsum.Dhcp.Sound.Ticking.{IsAhead, IsAhead-removed, all-IsAhead}
use dimsum.Dhcp.Sound.Installing.{IsInstalled, install-IsInstalled}

kept_step :
    (g : Bool) (x : Addr × ℕ) (rest : Result EngineError (List (Addr × ℕ))) (keep : List (Addr × ℕ))
    → (guard g topology_conflict >> (rest >>= λ k. ok (x ∷ k))) ≡ ok keep
    → (k : List (Addr × ℕ)) × (rest ≡ ok k) × (x ∷ k ≡ keep)
kept_step true x (ok k) keep h = (k, refl, ok-injective h)
kept_step true x (err e) keep h = absurd (cc)
kept_step true x panic keep h = absurd (cc)
kept_step true x stuck keep h = absurd (cc)
kept_step false x rest keep h = absurd (cc)

-- What `keep_entries` keeps holds every durable entry.
kept_has :
    (heap : ℕ → Entry) (s : Settings) (m keep : List (Addr × ℕ)) (a : Addr) (p : ℕ)
    → keep_entries heap s m ≡ ok keep
    → find a m ≡ some p
    → (heap p).durable ≡ true
    → has a keep ≡ true
unfolding keep_entries find has
kept_has heap s [] keep a p h f d = absurd (cc)
kept_has heap s ((b, q) ∷ m) keep a p h f d = elim (Bool-cases (is_kept (heap q))) [
  | inl kept ↦
      let k =
        kept_step (retained_topology s (heap q).lease) (b, q) (keep_entries heap s m) keep
          (sym (ground arith) ∙ h) in
      subst (λ l. has a l ≡ true) k.2 (ground (arith, kept_has heap s m k.0 a p k.1))
  | inr dropped ↦ elim (Bool-cases (same_addr b a)) [
    | inl same ↦
        let eq : q ≡ p = ground arith in
        let d' : (heap q).durable ≡ true = subst (λ x. (heap x).durable ≡ true) (sym eq) d in
        absurd (ground arith)
    | inr other ↦ ground (arith, kept_has heap s m keep a p)
  ]
]

-- The owners that are still to be looked at, and durable, are kept.
abbrev IsCovered : (ℕ → Entry) → List (Addr × ℕ) → List (Addr × ℕ) → Type 0
IsCovered heap keep [] = Unit
IsCovered heap keep ((a, p) ∷ m) =
    ((heap p).durable ≡ true → has (heap p).lease.address keep ≡ true) × IsCovered heap keep m

drop_unkept-IsInstalled :
    (keep : List (Addr × ℕ)) (e : Engine) (m : List (Addr × ℕ))
    → IsSound e
    → IsMap m
    → IsAhead e m
    → IsCovered e.heap keep m
    → IsInstalled e (drop_unkept keep e m)
unfolding drop_unkept
drop_unkept-IsInstalled keep e [] s d ahead all = record { sound = s; same = λ a. refl }
drop_unkept-IsInstalled keep e ((a, p) ∷ m) s d ahead all =
    elim (Bool-cases (has (e.heap p).lease.address keep)) [
      | inl kept ↦ rw kept (drop_unkept-IsInstalled keep e m s d.1 ahead.1 all.1)
      | inr dropped ↦
          let own = own_of e a p s ahead.0 in
          let unsaved : (e.heap p).durable ≡ false = ground (arith, all.0) in
          let next =
            drop_unkept-IsInstalled keep (remove e p) m (remove-IsSound e p s own) d.1
              (IsAhead-removed e a p m (sym (s.placed a p ahead.0)) d.0 ahead.1)
              (subst (λ h. IsCovered h keep m) (sym (remove-heap e p)) all.1) in
          rw dropped (record {
            sound = next.sound;
            same = λ b. next.same b ∙ remove-SameSaved e p own unsaved b;
          })
    ]

covered :
    (e : Engine) (s : Settings) (keep pre m : List (Addr × ℕ))
    → IsSound e
    → keep_entries e.heap s e.by_ip ≡ ok keep
    → pre ++ m ≡ e.by_ip
    → IsCovered e.heap keep m
covered e s keep pre [] h k eq = tt
covered e s keep pre ((a, p) ∷ m) h k eq =
    let there : find a e.by_ip ≡ some p =
      subst (λ l. find a l ≡ some p) eq (find-mem pre a p m (subst IsMap (sym eq) h.distinct)) in
    (
      λ d.
          subst (λ x. has x keep ≡ true) (sym (h.placed a p there))
            (kept_has e.heap s e.by_ip keep a p k there d),
      covered e s keep (pre ++ ((a, p) ∷ [])) m h k (append_assoc pre ((a, p) ∷ []) m ∙ eq),
    )

clear_acks-IsInstalled :
    (e : Engine) (m : List (Addr × ℕ)) → IsSound e → IsAhead e m → IsInstalled e (clear_acks e m)
unfolding clear_acks
clear_acks-IsInstalled e [] s ahead = record { sound = s; same = λ a. refl }
clear_acks-IsInstalled e ((a, p) ∷ m) s ahead =
    let v : Entry = record (e.heap p) { has_ack = false } in
    let e' : Engine = record e { heap = store e.heap p v } in
    let s' : IsSound e' =
      store-IsSound e p v s (refl, refl) (clear_ack-IsEntry (e.heap p) (s.good a p ahead.0)) in
    let next = clear_acks-IsInstalled e' m s' (ahead_same e e' m refl ahead.1) in
    record { sound = next.sound; same = λ b. next.same b ∙ store-SameSaved e p v refl refl b }
  where
    ahead_same :
        (e e' : Engine) (m : List (Addr × ℕ)) → e.by_ip ≡ e'.by_ip → IsAhead e m → IsAhead e' m
    ahead_same e e' [] eq h = tt
    ahead_same e e' ((b, q) ∷ m) eq h =
        (subst (λ l. find b l ≡ some q) eq h.0, ahead_same e e' m eq h.1)

-- `Apply`, if it accepts.
pub apply-IsInstalled :
    (e e' : Engine) (s : Settings) (g : ℕ) → IsSound e → apply e s g ≡ ok e' → IsInstalled e e'
unfolding apply
apply-IsInstalled e e' s g h a =
    let newer = guard-ok (ltb e.generation g) old_generation _ a in
    let valid = bind-ok (as_engine_error (validate_transition e.settings s)) _ newer.1 in
    let calm = guard-ok (not (any_unsettled e.heap e.by_ip)) mutation_pending _ valid.2 in
    let keep = bind-ok (keep_entries e.heap s e.by_ip) _ calm.1 in
    let count =
      bind-ok (count_reservations e.heap keep.0 (length keep.0) s.reservations) _ keep.2 in
    let room = guard-ok (leb count.0 (capacity s)) over_capacity _ count.2 in
    let dropped =
      drop_unkept-IsInstalled keep.0 e e.by_ip h h.distinct
        (all-IsAhead e [] e.by_ip refl h.distinct) (covered e s keep.0 [] e.by_ip h keep.1 refl) in
    let d = drop_unkept keep.0 e e.by_ip in
    let c : Engine = record d { probes = 0 } in
    let cleared =
      clear_acks-IsInstalled c d.by_ip (counted-IsSound d 0 dropped.sound)
        (all-IsAhead c [] d.by_ip refl dropped.sound.distinct) in
    let last = install-IsInstalled (clear_acks c d.by_ip) s g cleared.sound in
    subst (IsInstalled e) (ok-injective room.1)
      (record { sound = last.sound; same = λ x. last.same x ∙ cleared.same x ∙ dropped.same x })

pub new_engine-IsSound : (s : Settings) (g : ℕ) (e : Engine) → new_engine s g ≡ ok e → IsSound e
unfolding new_engine find
new_engine-IsSound s g e h =
    let valid = bind-ok (as_engine_error (validate_settings s)) _ h in
    let named = guard-ok (not (g == 0)) zero_generation _ valid.2 in
    subst IsSound (ok-injective named.1)
      (install-IsInstalled (blank_engine s) s g (record {
        live = λ a p f. absurd (cc);
        placed = λ a p f. absurd (cc);
        good = λ a p f. absurd (cc);
        named = λ id p f. absurd (cc);
        distinct = tt;
        marked = λ n p f lo hi. refl;
      })).sound
