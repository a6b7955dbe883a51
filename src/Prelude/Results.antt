-- ===== src/Prelude/Results.antt =====
-- Go's (value, error) results with the two outcomes that a model adds: `panic`, an index or slice
-- out of range, and `stuck`, a loop that ran out of the fuel of its model.
use Prim.Native.Nat.{ℕ, zero, suc, ◌<◌}
use mathlib.Core.Path.{◌≡◌, refl, subst}
use mathlib.Core.Bool.{Bool, true, false}
use dimsum.Prelude.Tests.{if◌then◌else◌}
use native.Mathlib.Omega.{arith}

pub data Result {ℓ} (E : Type 0) (A : Type ℓ) : Type ℓ where
  ok : A → Result E A
  err : E → Result E A
  panic : Result E A
  stuck : Result E A

infixl 5 ◌>>=◌ ◌>>◌
abbrev pub ◌>>=◌ {ℓ κ} :
    {E : Type 0} {A : Type ℓ} {B : Type κ} → Result E A → (A → Result E B) → Result E B
ok a >>= f = f a
err e >>= f = err e
panic >>= f = panic
stuck >>= f = stuck

abbrev pub ◌>>◌ {ℓ} : {E : Type 0} {B : Type ℓ} → Result E (Unit {0}) → Result E B → Result E B
m >> k = m >>= λ _. k

-- `if !b { return e }`
abbrev pub guard : {E : Type 0} → Bool → E → Result E (Unit {0})
guard true e = ok tt
guard false e = err e

-- An index or slice that Go checks at run time: out of range, it panics.
abbrev pub in_range {ℓ} : {E : Type 0} {A : Type ℓ} → Bool → Result E A → Result E A
in_range true r = r
in_range false r = panic

-- The call ends with a value that meets `P` or with an error, and never panics.
abbrev pub Returns {ℓ} : {E : Type 0} {A : Type ℓ} → (A → Type 0) → Result E A → Type 0
Returns P (ok a) = P a
Returns P (err e) = Unit
Returns P panic = ⊥
Returns P stuck = ⊥

module _ {ℓ κ} {E : Type 0} {A : Type ℓ} (P : A → Type 0) where
  pub Returns-bind :
      {B : Type κ} (Q : B → Type 0) (m : Result E B) (f : B → Result E A)
      → Returns Q m
      → ((b : B) → m ≡ ok b → Q b → Returns P (f b))
      → Returns P (m >>= f)
  Returns-bind Q (ok b) f h k = k b refl h
  Returns-bind Q (err e) f h k = tt
  Returns-bind Q panic f h k = elim h [ ]
  Returns-bind Q stuck f h k = elim h [ ]

-- One round of a loop ends it, or hands the next round its state.
pub data Round (S R : Type 0) : Type 0 where
  done : R → Round S R
  more : S → Round S R

pub Returns-weaken {ℓ} :
    {E : Type 0} {A : Type ℓ} (P Q : A → Type 0) (m : Result E A)
    → Returns P m
    → ((a : A) → P a → Q a)
    → Returns Q m
Returns-weaken P Q (ok a) h k = k a h
Returns-weaken P Q (err e) h k = tt
Returns-weaken P Q panic h k = elim h [ ]
Returns-weaken P Q stuck h k = elim h [ ]

pub Returns-guard {ℓ} :
    {E : Type 0} {A : Type ℓ} (P : A → Type 0) (b : Bool) (e : E) (k : Result E A)
    → (b ≡ true → Returns P k)
    → Returns P (guard b e >> k)
Returns-guard P true e k f = f refl
Returns-guard P false e k f = tt

pub Returns-in_range {ℓ} :
    {E : Type 0} {A : Type ℓ} (P : A → Type 0) (b : Bool) (r : Result E A)
    → b ≡ true
    → Returns P r
    → Returns P (in_range b r)
Returns-in_range P true r h k = k
Returns-in_range P false r h k = absurd (cc)

-- A branch meets `P` if each side does under its test.
pub Returns-if {ℓ} :
    {E : Type 0} {A : Type ℓ} (P : A → Type 0) (b : Bool) (x y : Result E A)
    → (b ≡ true → Returns P x)
    → (b ≡ false → Returns P y)
    → Returns P (if b then x else y)
Returns-if P true x y f g = f refl
Returns-if P false x y f g = g refl

-- What a round promises: the loop's result, or the invariant at a smaller measure.
abbrev pub Progress :
    {S R : Type 0} → (S → Type 0) → (S → ℕ) → (R → Type 0) → S → Round S R → Type 0
Progress Inv measure Post s (done r) = Post r
Progress Inv measure Post s (more s') = Inv s' × (measure s' < measure s)

module _ {E S R : Type 0} where
  -- `for { body }`, with `return` as `done`.
  unfoldable pub loop : ℕ → (S → Result E (Round S R)) → S → Result E R
  loop zero body s = stuck
  loop (suc fuel) body s = body s >>= λ r. elim r [ done x ↦ ok x | more s' ↦ loop fuel body s' ]

module _ {E S R : Type 0} (Inv : S → Type 0) (measure : S → ℕ) (Post : R → Type 0)
    (body : S → Result E (Round S R)) where
  loop_round :
      (fuel : ℕ) (s : S) (r : Round S R)
      → ((s' : S) → measure s' < measure s → Inv s' → Returns Post (loop fuel body s'))
      → Progress Inv measure Post s r
      → Returns Post (elim r [ done x ↦ ok x | more s' ↦ loop fuel body s' ])
  loop_round fuel s (done x) next p = p
  loop_round fuel s (more s') next p = next s' p.1 p.0

  -- A loop whose rounds keep the invariant and lower the measure ends, with its postcondition.
  pub loop-Returns :
      ((s : S) → Inv s → Returns (Progress Inv measure Post s) (body s))
      → (fuel : ℕ) (s : S) → measure s < fuel
      → Inv s
      → Returns Post (loop fuel body s)
  unfolding loop
  loop-Returns keep zero s m h = absurd (omega arith)
  loop-Returns keep (suc fuel) s m h =
      Returns-bind Post (Progress Inv measure Post s) (body s) _ (keep s h)
        (λ r e p. loop_round fuel s r (λ s' d i. loop-Returns keep fuel s' (omega arith) i) p)

module _ {E S R : Type 0} where
  pub loop-more :
      (fuel : ℕ) (body : S → Result E (Round S R)) (s s' : S)
      → body s ≡ ok (more s')
      → loop (suc fuel) body s ≡ loop fuel body s'
  unfolding loop
  loop-more fuel body s s' h = rw h refl

  pub loop-done :
      (fuel : ℕ) (body : S → Result E (Round S R)) (s : S) (r : R)
      → body s ≡ ok (done r)
      → loop (suc fuel) body s ≡ ok r
  unfolding loop
  loop-done fuel body s r h = rw h refl

-- A round's promise where the result is related to the state that the loop starts from: what
-- holds of a later state carries back over the round.
abbrev pub Extends :
    {S R : Type 0} → (S → Type 0) → (S → ℕ) → (S → R → Type 0) → S → Round S R → Type 0
Extends Inv measure Post s (done r) = Post s r
Extends {R} Inv measure Post s (more s') =
    Inv s' × (measure s' < measure s) × ((r : R) → Post s' r → Post s r)

module _ {E S R : Type 0} (Inv : S → Type 0) (measure : S → ℕ) (Post : S → R → Type 0)
    (body : S → Result E (Round S R)) where
  history_round :
      (fuel : ℕ) (s : S) (r : Round S R)
      → ((s' : S) → measure s' < measure s → Inv s' → Returns (Post s') (loop fuel body s'))
      → Extends Inv measure Post s r
      → Returns (Post s) (elim r [ done x ↦ ok x | more s' ↦ loop fuel body s' ])
  history_round fuel s (done x) next p = p
  history_round fuel s (more s') next p =
      Returns-weaken (Post s') (Post s) (loop fuel body s') (next s' p.1 p.0) p.2

  pub loop-history :
      ((s : S) → Inv s → Returns (Extends Inv measure Post s) (body s))
      → (fuel : ℕ) (s : S) → measure s < fuel
      → Inv s
      → Returns (Post s) (loop fuel body s)
  unfolding loop
  loop-history keep zero s m h = absurd (omega arith)
  loop-history keep (suc fuel) s m h =
      Returns-bind (Post s) (Extends Inv measure Post s) (body s) _ (keep s h)
        (λ r e p. history_round fuel s r (λ s' d i. loop-history keep fuel s' (omega arith) i) p)

pub ok-injective : {E A : Type 0} {a b : A} → ◌≡◌ {A = Result E A} (ok a) (ok b) → a ≡ b
ok-injective {a} h = subst (Returns (λ x. a ≡ x)) h refl

-- Inversion of a sequence that succeeds.
pub bind-ok {ℓ κ} :
    {E : Type 0} {A : Type ℓ} {B : Type κ} (m : Result E A) (f : A → Result E B) {b : B}
    → (m >>= f) ≡ ok b
    → (a : A) × (m ≡ ok a) × (f a ≡ ok b)
bind-ok (ok a) f h = (a, refl, h)
bind-ok (err e) f h = absurd (cc)
bind-ok panic f h = absurd (cc)
bind-ok stuck f h = absurd (cc)

pub guard-ok {ℓ} :
    {E : Type 0} {B : Type ℓ} (t : Bool) (e : E) (m : Result E B) {b : B}
    → (guard t e >> m) ≡ ok b
    → (t ≡ true) × (m ≡ ok b)
guard-ok true e m h = (refl, h)
guard-ok false e m h = absurd (cc)
