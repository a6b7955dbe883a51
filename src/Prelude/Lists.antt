-- ===== src/Prelude/Lists.antt =====
-- Lists measured and indexed by native numbers, under the library's names.
use Prim.Native.Nat.{ℕ, zero, suc, ◌+◌, ◌-◌, ◌≤◌, ◌<◌, min}
use mathlib.Core.Path.{◌≡◌, refl, ap}
use mathlib.Core.Logic.{◌≢◌}
use mathlib.Core.List.{List, [], ◌∷◌, ◌++◌, map}
use mathlib.Core.Option.{Option, none, some}
use native.Mathlib.Omega.{arith}
use native.Mathlib.Decide.{dec_lt}
use mathlib.Core.Logic.{◌⊎◌, inl, inr}

module _ {ℓ} {A : Type ℓ} where
  abbrev pub length : List A → ℕ
  length [] = 0
  length (x ∷ xs) = suc (length xs)

  abbrev pub get_elem? : List A → ℕ → Option A
  get_elem? [] i = none
  get_elem? (x ∷ xs) zero = some x
  get_elem? (x ∷ xs) (suc i) = get_elem? xs i

  -- A write out of bounds changes nothing.
  abbrev pub set : List A → ℕ → A → List A
  set [] i v = []
  set (x ∷ xs) zero v = v ∷ xs
  set (x ∷ xs) (suc i) v = x ∷ set xs i v

  abbrev pub get_or : List A → ℕ → A → A
  get_or [] i d = d
  get_or (x ∷ xs) zero d = x
  get_or (x ∷ xs) (suc i) d = get_or xs i d

  abbrev pub take : ℕ → List A → List A
  take zero xs = []
  take (suc n) [] = []
  take (suc n) (x ∷ xs) = x ∷ take n xs

  abbrev pub drop : ℕ → List A → List A
  drop zero xs = xs
  drop (suc n) [] = []
  drop (suc n) (x ∷ xs) = drop n xs

  abbrev pub replicate : ℕ → A → List A
  replicate zero a = []
  replicate (suc n) a = a ∷ replicate n a

  abbrev pub All {κ} : (A → Type κ) → List A → Type κ
  All P [] = Unit {κ}
  All P (x ∷ xs) = P x × All P xs

module _ {ℓ} {A : Type ℓ} where
  pub length-append : (xs ys : List A) → length (xs ++ ys) ≡ length xs + length ys
  length-append [] ys = omega arith
  length-append (x ∷ xs) ys = omega (arith, length-append xs ys)

  pub length-set : (xs : List A) (i : ℕ) (v : A) → length (set xs i v) ≡ length xs
  length-set [] i v = refl
  length-set (x ∷ xs) zero v = refl
  length-set (x ∷ xs) (suc i) v = ap suc (length-set xs i v)

  pub get_elem?-set_self :
      (xs : List A) (i : ℕ) (v : A) → i < length xs → get_elem? (set xs i v) i ≡ some v
  get_elem?-set_self [] i v h = elim h [ ]
  get_elem?-set_self (x ∷ xs) zero v h = refl
  get_elem?-set_self (x ∷ xs) (suc i) v h = get_elem?-set_self xs i v (omega arith)

  pub get_elem?-set_ne :
      (xs : List A) {i j : ℕ} (v : A) → i ≢ j → get_elem? (set xs i v) j ≡ get_elem? xs j
  get_elem?-set_ne [] v h = refl
  get_elem?-set_ne (x ∷ xs) {i = zero} {j = zero} v h = absurd (h refl)
  get_elem?-set_ne (x ∷ xs) {i = zero} {j = suc j} v h = refl
  get_elem?-set_ne (x ∷ xs) {i = suc i} {j = zero} v h = refl
  get_elem?-set_ne (x ∷ xs) {i = suc i} {j = suc j} v h = get_elem?-set_ne xs v (λ e. h (ap suc e))

  pub length-take : (n : ℕ) (xs : List A) → length (take n xs) ≡ min n (length xs)
  length-take zero xs = omega arith
  length-take (suc n) [] = omega arith
  length-take (suc n) (x ∷ xs) = omega (arith, length-take n xs)

  pub length-drop : (n : ℕ) (xs : List A) → length (drop n xs) ≡ length xs - n
  length-drop zero xs = omega arith
  length-drop (suc n) [] = omega arith
  length-drop (suc n) (x ∷ xs) = omega (arith, length-drop n xs)

  pub length-map {κ} : {B : Type κ} (xs : List A) (f : A → B) → length (map f xs) ≡ length xs
  length-map [] f = refl
  length-map (x ∷ xs) f = ap suc (length-map xs f)

  pub take-append : (xs ys : List A) → take (length xs) (xs ++ ys) ≡ xs
  take-append [] ys = refl
  take-append (x ∷ xs) ys = ap (◌∷◌ x) (take-append xs ys)

  pub drop-append : (xs ys : List A) → drop (length xs) (xs ++ ys) ≡ ys
  drop-append [] ys = refl
  drop-append (x ∷ xs) ys = drop-append xs ys

  pub All-append {κ} : (P : A → Type κ) (xs ys : List A) → All P xs → All P ys → All P (xs ++ ys)
  All-append P [] ys h k = k
  All-append P (x ∷ xs) ys h k = (h.0, All-append P xs ys h.1 k)

  pub All-take {κ} : (P : A → Type κ) (n : ℕ) (xs : List A) → All P xs → All P (take n xs)
  All-take P zero xs h = tt
  All-take P (suc n) [] h = tt
  All-take P (suc n) (x ∷ xs) h = (h.0, All-take P n xs h.1)

  pub All-drop {κ} : (P : A → Type κ) (n : ℕ) (xs : List A) → All P xs → All P (drop n xs)
  All-drop P zero xs h = h
  All-drop P (suc n) [] h = tt
  All-drop P (suc n) (x ∷ xs) h = All-drop P n xs h.1

abbrev pub sum : List ℕ → ℕ
sum [] = 0
sum (x ∷ xs) = x + sum xs

pub sum-set_pred :
    (xs : List ℕ) (i : ℕ)
    → i < length xs
    → 0 < get_or xs i 0
    → sum (set xs i (get_or xs i 0 - 1)) + 1 ≡ sum xs
sum-set_pred [] i h k = absurd (omega arith)
sum-set_pred (x ∷ xs) zero h k = omega arith
sum-set_pred (x ∷ xs) (suc i) h k = omega (arith, sum-set_pred xs i (omega arith) k)

pub sum-take-suc : (xs : List ℕ) (i : ℕ) → sum (take (suc i) xs) ≡ sum (take i xs) + get_or xs i 0
sum-take-suc [] zero = omega arith
sum-take-suc [] (suc i) = omega arith
sum-take-suc (x ∷ xs) zero = omega arith
sum-take-suc (x ∷ xs) (suc i) = omega (arith, sum-take-suc xs i)

pub take-set_le {ℓ} :
    {A : Type ℓ} (xs : List A) (n i : ℕ) (v : A) → n ≤ i → take n (set xs i v) ≡ take n xs
take-set_le xs zero i v h = refl
take-set_le [] (suc n) i v h = refl
take-set_le (x ∷ xs) (suc n) zero v h = absurd (omega arith)
take-set_le (x ∷ xs) (suc n) (suc i) v h = ap (◌∷◌ x) (take-set_le xs n i v (omega arith))

pub take_whole {ℓ} :
    {A : Type ℓ} (count : ℕ) (list : List A) → length list ≤ count → take count list ≡ list
take_whole zero (head ∷ tail) fits = absurd (omega arith)
take_whole zero [] fits = refl
take_whole (suc count) (head ∷ tail) fits = ap (◌∷◌ head) (take_whole count tail (omega arith))
take_whole (suc count) [] fits = refl

pub take-append-drop {ℓ} : {A : Type ℓ} (n : ℕ) (xs : List A) → take n xs ++ drop n xs ≡ xs
take-append-drop zero xs = refl
take-append-drop (suc n) [] = refl
take-append-drop (suc n) (x ∷ xs) = ap (◌∷◌ x) (take-append-drop n xs)

pub get_or-set_self {ℓ} :
    {A : Type ℓ} (xs : List A) (i : ℕ) (v d : A) → i < length xs → get_or (set xs i v) i d ≡ v
get_or-set_self [] i v d h = absurd (omega arith)
get_or-set_self (x ∷ xs) zero v d h = refl
get_or-set_self (x ∷ xs) (suc i) v d h = get_or-set_self xs i v d (omega arith)

pub get_or-set_ne {ℓ} :
    {A : Type ℓ} (xs : List A) (i k : ℕ) (v d : A) → i ≢ k → get_or (set xs i v) k d ≡ get_or xs k d
get_or-set_ne [] i k v d h = refl
get_or-set_ne (x ∷ xs) zero zero v d h = absurd (h refl)
get_or-set_ne (x ∷ xs) zero (suc k) v d h = refl
get_or-set_ne (x ∷ xs) (suc i) zero v d h = refl
get_or-set_ne (x ∷ xs) (suc i) (suc k) v d h = get_or-set_ne xs i k v d (λ e. h (ap suc e))

pub sum-map-set {ℓ} :
    {A : Type ℓ} (f : A → ℕ) (xs : List A) (i : ℕ) (v d : A)
    → i < length xs
    → sum (map f (set xs i v)) + f (get_or xs i d) ≡ sum (map f xs) + f v
sum-map-set f [] i v d h = absurd (omega arith)
sum-map-set f (x ∷ xs) zero v d h = omega arith
sum-map-set f (x ∷ xs) (suc i) v d h = omega (arith, sum-map-set f xs i v d (omega arith))

pub get_or_past {ℓ} :
    {A : Type ℓ} (xs : List A) (i : ℕ) (d : A) → ¬ (i < length xs) → get_or xs i d ≡ d
get_or_past [] i d h = refl
get_or_past (x ∷ xs) zero d h = absurd (h (omega arith))
get_or_past (x ∷ xs) (suc i) d h = get_or_past xs i d (λ p. h (omega arith))

pub same_or_not : (i j : ℕ) → (i ≡ j) ⊎ (i ≢ j)
same_or_not i j = elim (dec_lt i j) [
  | yes p ↦ inr (λ e. omega arith)
  | no p ↦ elim (dec_lt j i) [ yes q ↦ inr (λ e. omega arith) | no q ↦ inl (omega arith) ]
]

pub sum-map-append {ℓ} :
    {A : Type ℓ} (f : A → ℕ) (xs ys : List A)
    → sum (map f (xs ++ ys)) ≡ sum (map f xs) + sum (map f ys)
sum-map-append f [] ys = omega arith
sum-map-append f (x ∷ xs) ys = omega (arith, sum-map-append f xs ys)

module _ {ℓ} {A : Type ℓ} where
  pub get_or-append_left :
      (xs ys : List A) (i : ℕ) (d : A) → i < length xs → get_or (xs ++ ys) i d ≡ get_or xs i d
  get_or-append_left [] ys i d h = absurd (omega arith)
  get_or-append_left (x ∷ xs) ys zero d h = refl
  get_or-append_left (x ∷ xs) ys (suc i) d h = get_or-append_left xs ys i d (omega arith)

  pub get_or-append_last : (xs : List A) (x d : A) → get_or (xs ++ (x ∷ [])) (length xs) d ≡ x
  get_or-append_last [] x d = refl
  get_or-append_last (y ∷ xs) x d = get_or-append_last xs x d

module _ {ℓ} {A : Type ℓ} where
  pub take-set_lt :
      (n : ℕ) (xs : List A) (i : ℕ) (v : A) → i < n → take n (set xs i v) ≡ set (take n xs) i v
  take-set_lt zero xs i v h = absurd (omega arith)
  take-set_lt (suc n) [] i v h = refl
  take-set_lt (suc n) (x ∷ xs) zero v h = refl
  take-set_lt (suc n) (x ∷ xs) (suc i) v h = ap (◌∷◌ x) (take-set_lt n xs i v (omega arith))

  pub drop-set :
      (n : ℕ) (xs : List A) (i : ℕ) (v : A) → drop n (set xs (n + i) v) ≡ set (drop n xs) i v
  drop-set zero xs i v = let e : 0 + i ≡ i = omega arith in rw e refl
  drop-set (suc n) [] i v = refl
  drop-set (suc n) (x ∷ xs) i v =
      let e : suc n + i ≡ suc (n + i) = omega arith in rw e (drop-set n xs i v)

  pub get_or-take :
      (n : ℕ) (xs : List A) (i : ℕ) (d : A) → i < n → get_or (take n xs) i d ≡ get_or xs i d
  get_or-take zero xs i d h = absurd (omega arith)
  get_or-take (suc n) [] i d h = refl
  get_or-take (suc n) (x ∷ xs) zero d h = refl
  get_or-take (suc n) (x ∷ xs) (suc i) d h = get_or-take n xs i d (omega arith)

  pub get_or-drop :
      (n : ℕ) (xs : List A) (i : ℕ) (d : A) → get_or (drop n xs) i d ≡ get_or xs (n + i) d
  get_or-drop zero xs i d = let e : 0 + i ≡ i = omega arith in rw e refl
  get_or-drop (suc n) [] i d = refl
  get_or-drop (suc n) (x ∷ xs) i d =
      let e : suc n + i ≡ suc (n + i) = omega arith in rw e (get_or-drop n xs i d)

pub append_injective {ℓ} :
    {A : Type ℓ} (xs ys zs ws : List A)
    → length xs ≡ length ys
    → xs ++ zs ≡ ys ++ ws
    → (xs ≡ ys) × (zs ≡ ws)
append_injective [] [] zs ws n e = (refl, e)
append_injective [] (y ∷ ys) zs ws n e = absurd (omega arith)
append_injective (x ∷ xs) [] zs ws n e = absurd (omega arith)
append_injective (x ∷ xs) (y ∷ ys) zs ws n e =
    let r = append_injective xs ys zs ws (omega arith) (cc) in (cc, r.1)

pub take-take {ℓ} : {A : Type ℓ} (m n : ℕ) (xs : List A) → m ≤ n → take m (take n xs) ≡ take m xs
take-take zero n xs h = refl
take-take (suc m) zero xs h = absurd (omega arith)
take-take (suc m) (suc n) [] h = refl
take-take (suc m) (suc n) (x ∷ xs) h = ap (◌∷◌ x) (take-take m n xs (omega arith))
