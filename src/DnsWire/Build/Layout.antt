-- ===== src/DnsWire/Build/Layout.antt =====
-- Which bytes of a buffer the writes of a reply change.
use dimsum.Prelude.{
  ℕ, zero, suc, ◌+◌, ◌/◌, ◌%◌, ◌≤◌, ◌<◌, ◌≡◌, refl, ap, ◌∙◌, subst, ◌≢◌, ◌⊎◌, inl, true, List, [],
  ◌∷◌, arith, ltb, leb, lt→ltb, le→leb, length, set, length-set, get_or-set_self, get_or-set_ne, ok,
  Returns, Returns-bind,
}
use dimsum.Prelude.Bytes.{byte, word}
use dimsum.DnsWire.Build.{put8, put16, put32, overwrite}

-- The buffer `p` agrees with `p₀` outside the positions from `low` to `high`.
abbrev pub Frozen : ℕ → ℕ → List ℕ → List ℕ → Type 0
Frozen low high p₀ p =
    (length p ≡ length p₀) × ((k : ℕ) → (k < low) ⊎ (high ≤ k) → byte p k ≡ byte p₀ k)

-- A write of `count` bytes at `off` that leaves the frozen bytes alone.
abbrev pub Allowed : ℕ → ℕ → ℕ → ℕ → Type 0
Allowed low high off count = (low ≤ off) × (off + count ≤ high)

byte-set : (p : List ℕ) (i k v : ℕ) → i ≢ k → byte (set p i v) k ≡ byte p k
byte-set p i k v ne = get_or-set_ne p i k v 0 ne

-- A frozen position is not written.
apart :
    (low high off count k i : ℕ)
    → Allowed low high off count
    → (k < low) ⊎ (high ≤ k)
    → i < count
    → off + i ≢ k
apart low high off count k i a f lt e = ground arith

pub length-overwrite :
    (p : List ℕ) (off : ℕ) (bytes : List ℕ) → length (overwrite p off bytes) ≡ length p
length-overwrite p off [] = refl
length-overwrite p off (b ∷ bytes) =
    length-overwrite (set p off b) (off + 1) bytes ∙ length-set p off b

pub byte-overwrite_outside :
    (p : List ℕ) (off : ℕ) (bytes : List ℕ) (k : ℕ)
    → (k < off) ⊎ (off + length bytes ≤ k)
    → byte (overwrite p off bytes) k ≡ byte p k
byte-overwrite_outside p off [] k h = refl
byte-overwrite_outside p off (b ∷ bytes) k h =
    byte-overwrite_outside (set p off b) (off + 1) bytes k (ground arith)
    ∙ byte-set p off k b (λ e. ground arith)

pub byte-overwrite_inside :
    (p : List ℕ) (off : ℕ) (bytes : List ℕ) (k : ℕ)
    → off + length bytes ≤ length p
    → k < length bytes
    → byte (overwrite p off bytes) (off + k) ≡ byte bytes k
byte-overwrite_inside p off [] k fits h = absurd (omega arith)
byte-overwrite_inside p off (b ∷ bytes) zero fits h =
    let z : off + 0 ≡ off = omega arith in
    ap (byte (overwrite (set p off b) (off + 1) bytes)) z
    ∙ byte-overwrite_outside (set p off b) (off + 1) bytes off (inl (omega arith))
    ∙ get_or-set_self p off b 0 (omega arith)
byte-overwrite_inside p off (b ∷ bytes) (suc k) fits h =
    let z : off + suc k ≡ off + 1 + k = omega arith in
    ap (byte (overwrite (set p off b) (off + 1) bytes)) z
    ∙ byte-overwrite_inside (set p off b) (off + 1) bytes k (omega (arith, length-set p off b))
        (omega arith)

-- What a successful `put16` writes.
abbrev pub write16 : List ℕ → ℕ → ℕ → List ℕ
write16 p off v = set (set p off (v / 256 % 256)) (off + 1) (v % 256)

pub put16_lem : (p : List ℕ) (off v : ℕ) → off + 2 ≤ length p → put16 p off v ≡ ok (write16 p off v)
unfolding put16
put16_lem p off v h = let e = le→leb (off + 2) (length p) h in rw e refl

pub length-write16 : (p : List ℕ) (off v : ℕ) → length (write16 p off v) ≡ length p
length-write16 p off v =
    length-set (set p off (v / 256 % 256)) (off + 1) (v % 256) ∙ length-set p off (v / 256 % 256)

pub byte-write16_outside :
    (p : List ℕ) (off v k : ℕ) → off ≢ k → off + 1 ≢ k → byte (write16 p off v) k ≡ byte p k
byte-write16_outside p off v k a b =
    byte-set _ (off + 1) k (v % 256) b ∙ byte-set p off k (v / 256 % 256) a

pub word-write16_outside :
    (p : List ℕ) (off v k : ℕ) → (k + 2 ≤ off) ⊎ (off + 2 ≤ k) → word (write16 p off v) k ≡ word p k
word-write16_outside p off v k h =
    let hi = byte-write16_outside p off v k (λ e. ground arith) (λ e. ground arith) in
    let lo = byte-write16_outside p off v (k + 1) (λ e. ground arith) (λ e. ground arith) in
    omega (arith, hi, lo)

pub word-overwrite_before :
    (p : List ℕ) (off : ℕ) (bytes : List ℕ) (k : ℕ)
    → k + 2 ≤ off
    → word (overwrite p off bytes) k ≡ word p k
word-overwrite_before p off bytes k h =
    let hi = byte-overwrite_outside p off bytes k (inl (omega arith)) in
    let lo = byte-overwrite_outside p off bytes (k + 1) (inl (omega arith)) in omega (arith, hi, lo)

pub word-write16 :
    (p : List ℕ) (off v : ℕ) → off + 2 ≤ length p → word (write16 p off v) off ≡ v % 65536
word-write16 p off v h =
    let n = length-set p off (v / 256 % 256) in
    let lo = get_or-set_self (set p off (v / 256 % 256)) (off + 1) (v % 256) 0 (omega arith) in
    let hi =
      byte-set (set p off (v / 256 % 256)) (off + 1) off (v % 256) (λ e. omega (arith, e))
      ∙ get_or-set_self p off (v / 256 % 256) 0 (omega arith) in
    omega (arith, lo, hi)

module _ (low high : ℕ) (p₀ : List ℕ) (fits : high ≤ length p₀) where
  inside :
      (p : List ℕ) (off count : ℕ)
      → Frozen low high p₀ p
      → Allowed low high off count
      → off + count ≤ length p
  inside p off count f a = let n = f.0 in ground arith

  set-Frozen :
      (p : List ℕ) (off i count v : ℕ)
      → Frozen low high p₀ p
      → Allowed low high off count
      → i < count
      → Frozen low high p₀ (set p (off + i) v)
  set-Frozen p off i count v f a lt = (
    length-set p (off + i) v ∙ f.0,
    λ k w. byte-set p (off + i) k v (apart low high off count k i a w lt) ∙ f.1 k w,
  )

  pub put8-Frozen :
      (p : List ℕ) (off v : ℕ)
      → Frozen low high p₀ p
      → Allowed low high off 1
      → Returns (Frozen low high p₀) (put8 p off v)
  unfolding put8
  put8-Frozen p off v f a =
      let e : ltb off (length p) ≡ true =
        lt→ltb off (length p) (omega (arith, inside p off 1 f a)) in
      let z : off + 0 ≡ off = omega arith in
      rw e (
        subst (λ o. Frozen low high p₀ (set p o (v % 256))) z
          (set-Frozen p off 0 1 (v % 256) f a (omega arith)))

  pub put16-Frozen :
      (p : List ℕ) (off v : ℕ)
      → Frozen low high p₀ p
      → Allowed low high off 2
      → Returns (Frozen low high p₀) (put16 p off v)
  unfolding put16
  put16-Frozen p off v f a =
      let e : leb (off + 2) (length p) ≡ true = le→leb (off + 2) (length p) (inside p off 2 f a) in
      let z : off + 0 ≡ off = omega arith in
      let g =
        subst (λ o. Frozen low high p₀ (set p o (v / 256 % 256))) z
          (set-Frozen p off 0 2 (v / 256 % 256) f a (omega arith)) in
      rw e (set-Frozen (set p off (v / 256 % 256)) off 1 2 (v % 256) g a (omega arith))

  pub put32-Frozen :
      (p : List ℕ) (off v : ℕ)
      → Frozen low high p₀ p
      → Allowed low high off 4
      → Returns (Frozen low high p₀) (put32 p off v)
  unfolding put32
  put32-Frozen p off v f a =
      Returns-bind (Frozen low high p₀) (Frozen low high p₀) (put16 p off (v / 65536 % 65536)) _
        (put16-Frozen p off (v / 65536 % 65536) f (ground arith))
        λ q e g. put16-Frozen q (off + 2) (v % 65536) g (ground arith)
