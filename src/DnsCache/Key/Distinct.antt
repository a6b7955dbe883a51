-- ===== src/DnsCache/Key/Distinct.antt =====
-- Queries with one key ask the same.
use dimsum.Prelude.{
  ℕ, ◌+◌, ◌-◌, ◌/◌, ◌%◌, ◌^◌, ◌<◌, ◌≡◌, refl, sym, ap, ◌∙◌, ◌⊎◌, inl, inr, Bool, false, some, List,
  [], ◌∷◌, ◌++◌, arith, if◌then◌else◌, Bool-cases, length, drop, replicate, append_injective,
}
use dimsum.Prelude.Bytes.{byte}
use dimsum.DnsWire.Message.{Message}
use dimsum.DnsWire.Template.{bytes16, bytes32}
use dimsum.DnsCache.Key.{Key, bytes64, checking_disabled, key_head, new_key}

bytes16_injective : (a b : ℕ) → a < 2 ^ 16 → b < 2 ^ 16 → bytes16 a ≡ bytes16 b → a ≡ b
bytes16_injective a b h k e =
    let p = ap (λ l. byte l 0) e in let q = ap (λ l. byte l 1) e in omega (arith, p, q)

bytes32_injective : (a b : ℕ) → a < 2 ^ 32 → b < 2 ^ 32 → bytes32 a ≡ bytes32 b → a ≡ b
bytes32_injective a b h k e =
    let p = ap (λ l. byte l 0) e in
    let q = ap (λ l. byte l 1) e in
    let r = ap (λ l. byte l 2) e in let s = ap (λ l. byte l 3) e in omega (arith, p, q, r, s)

bytes64_injective : (a b : ℕ) → a < 2 ^ 64 → b < 2 ^ 64 → bytes64 a ≡ bytes64 b → a ≡ b
bytes64_injective a b h k e =
    let r =
      append_injective (bytes32 (a / 2 ^ 32 % 2 ^ 32)) (bytes32 (b / 2 ^ 32 % 2 ^ 32))
        (bytes32 (a % 2 ^ 32)) (bytes32 (b % 2 ^ 32)) refl e in
    let hi =
      bytes32_injective (a / 2 ^ 32 % 2 ^ 32) (b / 2 ^ 32 % 2 ^ 32) (omega arith) (omega arith)
        (r.0) in
    let lo = bytes32_injective (a % 2 ^ 32) (b % 2 ^ 32) (omega arith) (omega arith) (r.1) in
    omega (arith, hi, lo)

-- The widths of a parsed message's fields.
pub record IsParsed (m : Message) : Type 0 where
  pub qtype : m.question.qtype < 2 ^ 16
  pub qclass : m.question.qclass < 2 ^ 16
  pub udp_size : m.edns.udp_size < 2 ^ 16
  pub canonical : length m.question.name.canonical ≡ length m.question.name.wire

-- What the key holds of a query.
pub record SameQuery (m m' : Message) : Type 0 where
  pub name : m.question.name.canonical ≡ m'.question.name.canonical
  pub qtype : m.question.qtype ≡ m'.question.qtype
  pub qclass : m.question.qclass ≡ m'.question.qclass
  pub present : m.edns.present ≡ m'.edns.present
  pub dnssec_ok : m.edns.dnssec_ok ≡ m'.edns.dnssec_ok
  pub checking : checking_disabled m.question.header ≡ checking_disabled m'.question.header
  pub udp_size : (m.edns.present ≡ false) ⊎ (m.edns.udp_size ≡ m'.edns.udp_size)

variant_bits :
    (a b c a' b' c' : Bool)
    → (if a then 1 else 0) + (if b then 2 else 0) + (if c then 4 else 0)
      ≡ (if a' then 1 else 0) + (if b' then 2 else 0) + (if c' then 4 else 0)
    → (a ≡ a') × (b ≡ b') × (c ≡ c')
variant_bits a b c a' b' c' e = (ground arith, ground arith, ground arith)

-- The parts of a key.
new_key_parts :
    (m : Message) (space generation features : ℕ) (k : Key)
    → new_key m space generation features ≡ some k
    → (k.bytes
        ≡ key_head m space generation features
          ++ (m.question.name.canonical ++ replicate (257 - length m.question.name.canonical) 0))
      × (k.size ≡ 31 + length m.question.name.wire)
unfolding new_key
new_key_parts m space generation features k e = (ground arith, ground arith)

-- The bytes behind the variant: the UDP size of an EDNS query.
abbrev udp_bytes : Message → List ℕ
udp_bytes m = if m.edns.present then bytes16 m.edns.udp_size else 0 ∷ 0 ∷ []

length-udp_bytes : (m : Message) → length (udp_bytes m) ≡ 2
length-udp_bytes m = elim (Bool-cases m.edns.present) [ inl e ↦ rw e refl | inr e ↦ rw e refl ]

length-key_head : (m : Message) (a b c : ℕ) → length (key_head m a b c) ≡ 31
length-key_head m a b c = omega (arith, length-udp_bytes m)

same_udp :
    (m m' : Message)
    → IsParsed m
    → IsParsed m'
    → m.edns.present ≡ m'.edns.present
    → udp_bytes m ≡ udp_bytes m'
    → (m.edns.present ≡ false) ⊎ (m.edns.udp_size ≡ m'.edns.udp_size)
same_udp m m' w w' p e = elim (Bool-cases m.edns.present) [
  | inr f ↦ inl f
  | inl t ↦
      let a : udp_bytes m ≡ bytes16 m.edns.udp_size = rw t refl in
      let b : udp_bytes m' ≡ bytes16 m'.edns.udp_size = rw (sym p ∙ t) refl in
      inr
        (bytes16_injective m.edns.udp_size m'.edns.udp_size w.udp_size w'.udp_size (sym a ∙ e ∙ b))
]

-- Two queries that have the same key in the same cache are in the same namespace, of the same policy
-- generation and with the same features, and ask the same: the name up to case, the type and the
-- class, whether EDNS, its DNSSEC bit and checking are on, and the UDP size where EDNS is present.
-- The messages have the widths of parsed ones, and the three numbers fit 64 bits.
pub new_key-SameQuery :
    (m m' : Message) (space space' generation generation' features features' : ℕ) (k : Key)
    → IsParsed m
    → IsParsed m'
    → (space < 2 ^ 64) × (generation < 2 ^ 64) × (features < 2 ^ 64)
    → (space' < 2 ^ 64) × (generation' < 2 ^ 64) × (features' < 2 ^ 64)
    → new_key m space generation features ≡ some k
    → new_key m' space' generation' features' ≡ some k
    → SameQuery m m' × (space ≡ space') × (generation ≡ generation') × (features ≡ features')
new_key-SameQuery m m' a a' b b' c c' k w w' lt lt' e e' =
    let p = new_key_parts m a b c k e in
    let p' = new_key_parts m' a' b' c' k e' in
    let h = key_head m a b c in
    let h' = key_head m' a' b' c' in
    let whole =
      append_injective h h' _ _ (length-key_head m a b c ∙ sym (length-key_head m' a' b' c'))
        (sym p.0 ∙ p'.0) in
    let names =
      append_injective m.question.name.canonical m'.question.name.canonical _ _
        (omega (arith, w.canonical, w'.canonical, p.1, p'.1)) (whole.1) in
    let one = append_injective (bytes64 a) (bytes64 a') _ _ refl (whole.0) in
    let two = append_injective (bytes64 b) (bytes64 b') _ _ refl (one.1) in
    let three = append_injective (bytes64 c) (bytes64 c') _ _ refl (two.1) in
    let four =
      append_injective (bytes16 m.question.qtype) (bytes16 m'.question.qtype) _ _ refl (three.1) in
    let five =
      append_injective (bytes16 m.question.qclass) (bytes16 m'.question.qclass) _ _ refl (four.1) in
    let bits =
      variant_bits m.edns.present m.edns.dnssec_ok (checking_disabled m.question.header)
        m'.edns.present m'.edns.dnssec_ok (checking_disabled m'.question.header)
        (ap (λ l. byte l 0) (five.1)) in
    (
      record {
        name = names.0;
        qtype = bytes16_injective m.question.qtype m'.question.qtype w.qtype w'.qtype (four.0);
        qclass = bytes16_injective m.question.qclass m'.question.qclass w.qclass w'.qclass (five.0);
        present = bits.0;
        dnssec_ok = bits.1;
        checking = bits.2;
        udp_size = same_udp m m' w w' (bits.0) (ap (drop 1) (five.1));
      },
      bytes64_injective a a' (lt.0) (lt'.0) (one.0),
      bytes64_injective b b' (lt.1) (lt'.1) (two.0),
      bytes64_injective c c' (lt.2) (lt'.2) (three.0),
    )
