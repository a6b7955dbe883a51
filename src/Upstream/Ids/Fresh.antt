-- ===== src/Upstream/Ids/Fresh.antt =====
-- Which identifiers `acquire` hands out.
use dimsum.Prelude.{
  ℕ, zero, suc, ◌+◌, ◌-◌, ◌%◌, ◌≤◌, ◌<◌, ◌≡◌, refl, sym, ◌∙◌, subst, ◌↔◌, inl, inr, true, false,
  Option, none, some, arith, Bool-cases, Option-cases, set, get_or, Result, ok, err, panic, stuck,
}
use dimsum.Upstream.Ids.{id_count, IdError, Ids, is_open, search, acquire}
use native.Mathlib.Decide.{dec_lt}

-- The identifier is neither in use nor in quarantine.
abbrev pub IsOpen : Ids → ℕ → ℕ → Type 0
IsOpen p now id = (get_or p.active id false ≡ false) × (get_or p.until id 0 ≤ now)

open_lem :
    (p : Ids) (now id : ℕ)
    → get_or p.active id false ≡ false
    → get_or p.until id 0 ≤ now
    → is_open p now id ≡ true
open_lem p now id a b = ground arith

is_open_iff : (p : Ids) (now id : ℕ) → (is_open p now id ≡ true) ↔ IsOpen p now id
is_open_iff p now id = (λ h. (ground arith, ground arith), λ h. open_lem p now id (h.0) (h.1))

search_sound :
    (p : Ids) (now start rounds i id : ℕ)
    → search p now start rounds i ≡ some id
    → (id < id_count) × IsOpen p now id
unfolding search
search_sound p now start zero i id h = absurd (cc)
search_sound p now start (suc rounds) i id h =
    let k = (start + i) % id_count in
    elim (Bool-cases (is_open p now k)) [
      | inl e ↦
          let q : k ≡ id = ground arith in
          subst (λ k. (k < id_count) × IsOpen p now k) q (omega arith, (is_open_iff p now k).0 e)
      | inr e ↦ search_sound p now start rounds (i + 1) id (cc)
    ]

search_complete :
    (p : Ids) (now start rounds i j : ℕ)
    → search p now start rounds i ≡ none
    → i ≤ j
    → j < i + rounds
    → ¬ IsOpen p now ((start + j) % id_count)
unfolding search
search_complete p now start zero i j h lo hi o = omega arith
search_complete p now start (suc rounds) i j h lo hi o =
    let k = (start + i) % id_count in
    elim (Bool-cases (is_open p now k)) [
      | inl e ↦ let q : ◌≡◌ {A = Option ℕ} (some k) none = cc in absurd (some_none q)
      | inr e ↦ elim (dec_lt i j) [
        | yes a ↦ search_complete p now start rounds (i + 1) j (cc) (omega arith) (omega arith) o
        | no a ↦
            let q : j ≡ i = omega arith in
            absurd (
              differ (
                sym
                  ((is_open_iff p now k).1 (subst (λ j. IsOpen p now ((start + j) % id_count)) q o))
                ∙ e))
      ]
    ]
  where
    some_none : {k : ℕ} → ◌≡◌ {A = Option ℕ} (some k) none → ⊥
    some_none e = cc

    differ : true ≡ false → ⊥
    differ e = cc

-- An open identifier was marked and nothing else changed, or the table is as before: there is no
-- open identifier, or no random number.
abbrev pub Acquired : Ids → ℕ → Option ℕ → Ids × Result IdError ℕ → Type 0
Acquired p now random (p', ok id) =
    (id < id_count) × IsOpen p now id × (p'.until ≡ p.until) × (p'.active ≡ set p.active id true)
Acquired p now random (p', err IdError.overloaded) =
    (p' ≡ p) × ((id : ℕ) → id < id_count → ¬ IsOpen p now id)
Acquired p now random (p', err IdError.random_failed) = (p' ≡ p) × (random ≡ none)
Acquired p now random (p', panic) = ⊥
Acquired p now random (p', stuck) = ⊥

-- Every identifier is tried.
tried :
    (start id : ℕ)
    → start < id_count
    → id < id_count
    → (j : ℕ) × (j < id_count) × ((start + j) % id_count ≡ id)
tried start id h k = elim (dec_lt id start) [
  | yes p ↦ (id_count - start + id, omega arith, omega arith)
  | no p ↦ (id - start, omega arith, omega arith)
]

-- `acquire` hands out an identifier that is neither in use nor in quarantine and marks only it, or
-- fails without a change: with ErrOverloaded only if no identifier is open, or because there was no
-- random number. The random number is below 65536.
pub acquire-Acquired :
    (p : Ids) (now : ℕ) (random : Option ℕ)
    → ((start : ℕ) → random ≡ some start → start < id_count)
    → Acquired p now random (acquire p now random)
unfolding acquire
acquire-Acquired p now none h = (refl, refl)
acquire-Acquired p now (some start) h = elim (Option-cases (search p now start id_count 0)) [
  | inr (id, e) ↦
      let q : acquire p now (some start) ≡ (record p { active = set p.active id true }, ok id) =
        cc in
      let r = search_sound p now start id_count 0 id e in
      subst (Acquired p now (some start)) (sym q) (r.0, r.1, refl, refl)
  | inl e ↦
      let q : acquire p now (some start) ≡ (p, err IdError.overloaded) = cc in
      subst (Acquired p now (some start)) (sym q) (
        refl,
        λ id lt o.
            let t = tried start id (h start refl) lt in
            search_complete p now start id_count 0 (t.0) e (omega arith) (omega (arith, t.1))
              (subst (IsOpen p now) (sym (t.2)) o),
      )
]
