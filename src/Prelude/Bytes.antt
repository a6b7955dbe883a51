-- ===== src/Prelude/Bytes.antt =====
-- Byte slices as lists of numbers: indexing and slicing with Go's run-time checks, and the
-- big-endian integers of `encoding/binary`.
use dimsum.Prelude.Maps.{Key}
use dimsum.Prelude.{
  ◌%◌, ◌^◌, ◌==◌, ◌↔◌, ◌/◌, false, Bool, true, take-append, drop-append, ◌++◌, ℕ, zero, suc, ◌+◌,
  ◌-◌, ◌*◌, ◌≤◌, ◌<◌, ◌≡◌, refl, ◌&&◌, List, [], ◌∷◌, arith, leb, le→leb, if◌then◌else◌, length,
  get_or, take, drop, All, All-take, All-drop, Result, ok, panic, ◌>>=◌, length-take, length-drop,
}

abbrev pub IsByte : ℕ → Type 0
IsByte b = b < 256

-- p[i]
abbrev pub at {ℓ} : {E : Type 0} {A : Type ℓ} → List A → ℕ → Result E A
at [] i = panic
at (x ∷ xs) zero = ok x
at (x ∷ xs) (suc i) = at xs i

-- p[a:b]. A bound past the length panics here; Go allows one up to the capacity.
unfoldable pub slice {ℓ} : {E : Type 0} {A : Type ℓ} → List A → ℕ → ℕ → Result E (List A)
slice p a b = if leb a b && leb b (length p) then ok (take (b - a) (drop a p)) else panic

-- binary.BigEndian.Uint16(p[off:off+2])
unfoldable pub u16 : {E : Type 0} → List ℕ → ℕ → Result E ℕ
u16 p off = do hi ← at p off; lo ← at p (off + 1); ok (hi * 256 + lo)

-- binary.BigEndian.Uint32(p[off:off+4])
unfoldable pub u32 : {E : Type 0} → List ℕ → ℕ → Result E ℕ
u32 p off = do hi ← u16 p off; lo ← u16 p (off + 2); ok (hi * 65536 + lo)

-- The byte at an offset, for statements.
abbrev pub byte : List ℕ → ℕ → ℕ
byte p i = get_or p i 0

abbrev pub word : List ℕ → ℕ → ℕ
word p i = byte p i * 256 + byte p (i + 1)

module _ {ℓ} {E : Type 0} {A : Type ℓ} where
  pub at-get_or :
      (xs : List A) (i : ℕ) (d : A) → i < length xs → at {E = E} xs i ≡ ok (get_or xs i d)
  at-get_or [] i d h = absurd (omega arith)
  at-get_or (x ∷ xs) zero d h = refl
  at-get_or (x ∷ xs) (suc i) d h = at-get_or xs i d (omega arith)

  pub slice_lem :
      (xs : List A) (a b : ℕ)
      → a ≤ b
      → b ≤ length xs
      → slice {E = E} xs a b ≡ ok (take (b - a) (drop a xs))
  unfolding slice
  slice_lem xs a b h k = rw (le→leb a b h, le→leb b (length xs) k)

pub byte-IsByte : (p : List ℕ) (i : ℕ) → All IsByte p → byte p i < 256
byte-IsByte [] i h = omega arith
byte-IsByte (x ∷ xs) zero h = h.0
byte-IsByte (x ∷ xs) (suc i) h = byte-IsByte xs i h.1

module _ {E : Type 0} where
  pub at-byte : (p : List ℕ) (i : ℕ) → i < length p → at {E = E} p i ≡ ok (byte p i)
  at-byte p i h = at-get_or p i 0 h

  pub u16-word : (p : List ℕ) (off : ℕ) → off + 2 ≤ length p → u16 {E = E} p off ≡ ok (word p off)
  unfolding u16
  u16-word p off h = ground (arith, at-byte p off, at-byte p (off + 1))

  pub u32-word :
      (p : List ℕ) (off : ℕ)
      → off + 4 ≤ length p
      → u32 {E = E} p off ≡ ok (word p off * 65536 + word p (off + 2))
  unfolding u32
  u32-word p off h = ground (arith, u16-word p off, u16-word p (off + 2))

pub word-lt : (p : List ℕ) (i : ℕ) → All IsByte p → word p i < 65536
word-lt p i h = omega (arith, byte-IsByte p i h, byte-IsByte p (i + 1) h)

-- The bytes of a slice, for statements.
abbrev pub span : List ℕ → ℕ → ℕ → List ℕ
span p a b = take (b - a) (drop a p)

pub span-IsByte : (p : List ℕ) (a b : ℕ) → All IsByte p → All IsByte (span p a b)
span-IsByte p a b h = All-take IsByte (b - a) (drop a p) (All-drop IsByte a p h)

pub length-span : (p : List ℕ) (a b : ℕ) → a ≤ b → b ≤ length p → length (span p a b) ≡ b - a
length-span p a b h k = omega (arith, length-take (b - a) (drop a p), length-drop a p)

pub byte-append : (pre : List ℕ) (x : ℕ) (rest : List ℕ) → byte (pre ++ (x ∷ rest)) (length pre) ≡ x
byte-append [] x rest = refl
byte-append (y ∷ pre) x rest = byte-append pre x rest

pub span-append :
    (pre mid rest : List ℕ) (a b : ℕ)
    → a ≡ length pre
    → b ≡ length pre + length mid
    → span (pre ++ (mid ++ rest)) a b ≡ mid
span-append pre mid rest a b p q =
    let e : b - a ≡ length mid = omega arith in
    rw (e, p, drop-append pre (mid ++ rest)) (take-append mid rest)

-- v & (1 << k) != 0
abbrev pub bit : ℕ → ℕ → Bool
bit v k = v / 2 ^ k % 2 == 1

-- bytes.Equal
unfoldable pub bytes_eq : List ℕ → List ℕ → Bool
bytes_eq [] [] = true
bytes_eq [] (y ∷ ys) = false
bytes_eq (x ∷ xs) [] = false
bytes_eq (x ∷ xs) (y ∷ ys) = x == y && bytes_eq xs ys

pub bytes_eq_iff : (xs ys : List ℕ) → (bytes_eq xs ys ≡ true) ↔ (xs ≡ ys)
unfolding bytes_eq
bytes_eq_iff [] [] = (λ _. refl, λ _. refl)
bytes_eq_iff [] (y ∷ ys) = (λ h. cc, λ h. cc)
bytes_eq_iff (x ∷ xs) [] = (λ h. cc, λ h. cc)
bytes_eq_iff (x ∷ xs) (y ∷ ys) =
    (λ h. ground (arith, (bytes_eq_iff xs ys).0), λ h. ground (arith, (bytes_eq_iff xs ys).1))

instance abbrev pub bytes_key : Key (List ℕ)
bytes_key = record { same = bytes_eq; same_iff = bytes_eq_iff }
