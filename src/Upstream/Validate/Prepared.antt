-- ===== src/Upstream/Validate/Prepared.antt =====
-- What `prepare` of internal/upstream/validate.go sends of a client's options.
use dimsum.Prelude.{
  All, Bool-cases, Extends, List, Returns, Returns-bind, Returns-if, [], ap, append-nil,
  append_assoc, arith, drop, if◌then◌else◌, inl, inr, leb, leb→le, length, loop-history, ltb, refl,
  suc, sym, zero, ℕ, ◌%◌, ◌++◌, ◌+◌, ◌-◌, ◌/◌, ◌<◌, ◌||◌, ◌∙◌, ◌∷◌, ◌≡◌, ◌≤◌,
}
use dimsum.Prelude.Bytes.{IsByte, byte, byte-IsByte, length-span, slice_lem, span, u16-word, word}
use dimsum.DnsWire.Record.{EdnsOption, read_option}
use dimsum.Upstream.Validate.Matched.{Reads, ends, reads}
use dimsum.Upstream.Validate.{bytes2, is_private, keep_options, keep_options_step}

-- An option as RFC 6891 writes it: its code, the length of its data, and the data.
abbrev pub encode_option : EdnsOption → List ℕ
encode_option o = bytes2 o.code ++ (bytes2 (length o.payload) ++ o.payload)

-- The public ones of a list of options, one behind the other.
abbrev pub encode_public : List EdnsOption → List ℕ
encode_public [] = []
encode_public (o ∷ os) =
    if is_private o then encode_public os else encode_option o ++ encode_public os

drop-byte : (p : List ℕ) (a : ℕ) → a < length p → drop a p ≡ byte p a ∷ drop (suc a) p
drop-byte [] a h = absurd (omega arith)
drop-byte (x ∷ xs) zero h = refl
drop-byte (x ∷ xs) (suc a) h = drop-byte xs a (omega arith)

span-byte :
    (p : List ℕ) (a c b : ℕ) → c ≡ a + 1 → a < b → b ≤ length p → span p a b ≡ byte p a ∷ span p c b
span-byte p a c b e h k =
    let n : b - a ≡ suc (b - c) = omega arith in
    let m : c ≡ suc a = omega arith in rw (n, drop-byte p a (omega arith), m) refl

bytes2-word :
    (p : List ℕ) (i : ℕ) → All IsByte p → bytes2 (word p i) ≡ byte p i ∷ byte p (i + 1) ∷ []
bytes2-word p i h =
    let hi : word p i / 256 % 256 ≡ byte p i =
      omega (arith, byte-IsByte p i h, byte-IsByte p (i + 1) h) in
    let lo : word p i % 256 ≡ byte p (i + 1) =
      omega (arith, byte-IsByte p i h, byte-IsByte p (i + 1) h) in
    rw (hi, lo) refl

span-encode_option :
    (p : List ℕ) (off end : ℕ)
    → All IsByte p
    → end ≡ off + 4 + word p (off + 2)
    → end ≤ length p
    → span p off end ≡ bytes2 (word p off) ++ (bytes2 (word p (off + 2)) ++ span p (off + 4) end)
span-encode_option p off end bytes e k =
    let rest = span p (off + 4) end in
    let n = word p (off + 2) in
    span-byte p off (off + 1) end refl (omega arith) k
    ∙ ap (λ t. byte p off ∷ t)
        (span-byte p (off + 1) (off + 2) end (omega arith) (omega arith) k
          ∙ ap (λ t. byte p (off + 1) ∷ t)
              (span-byte p (off + 2) (off + 2 + 1) end refl (omega arith) k
                ∙ ap (λ t. byte p (off + 2) ∷ t)
                    (span-byte p (off + 2 + 1) (off + 4) end (omega arith) (omega arith) k)))
    ∙ sym (ap (λ t. byte p off ∷ byte p (off + 1) ∷ (t ++ rest)) (bytes2-word p (off + 2) bytes))
    ∙ sym (ap (λ t. t ++ (bytes2 n ++ rest)) (bytes2-word p off bytes))

read_option-encode_option :
    (options : List ℕ) (off : ℕ)
    → All IsByte options
    → Returns
        (λ (r : EdnsOption × ℕ).
          (off + 4 ≤ r.1) × (r.1 ≤ length options) × (span options off r.1 ≡ encode_option r.0))
        (read_option options off)
unfolding read_option
read_option-encode_option options off bytes =
    Returns-if _ (ltb (length options) off || ltb (length options - off) 4) _ _ (λ _. tt)
      λ room. rw (u16-word options (off + 2) (ground arith)) (
        let end = off + 4 + word options (off + 2) in
        elim (Bool-cases (leb end (length options))) [
          | inl fits ↦
              rw
                (
                  fits,
                  u16-word options off (ground arith),
                  slice_lem options (off + 4) end (omega arith) (leb→le end (length options) fits),
                )
                (
                  omega arith,
                  leb→le end (length options) fits,
                  piece end (leb→le end (length options) fits) refl,
                )
          | inr out ↦ rw out tt
        ])
  where
    piece :
        (end : ℕ)
        → end ≤ length options
        → end ≡ off + 4 + word options (off + 2)
        → span options off end
          ≡ encode_option (record { code = word options off; payload = span options (off + 4) end })
    piece end k e =
        let l : length (span options (off + 4) end) ≡ word options (off + 2) =
          omega (arith, length-span options (off + 4) end (omega arith) k) in
        span-encode_option options off end bytes e k
        ∙ ap (λ n. bytes2 (word options off) ++ (bytes2 n ++ span options (off + 4) end)) (sym l)

-- The options that `prepare` keeps are the public ones of those that the client sent.
pub record PublicCopy (options : List ℕ) (off : ℕ) (kept copy : List ℕ) : Type 0 where
  pub found : List EdnsOption
  pub listed : Reads options off found
  pub copied : copy ≡ kept ++ encode_public found

keep_options_step_lem :
    (options : List ℕ)
    → All IsByte options
    → (s : ℕ × List ℕ) → s.0 ≤ length options
    → Returns
        (Extends
          (λ s. s.0 ≤ length options)
          (λ s. length options - s.0)
          (λ s copy. PublicCopy options s.0 s.1 copy)
          s)
        (keep_options_step options s)
unfolding keep_options_step
keep_options_step_lem options bytes (off, kept) h =
    Returns-if _ (ltb off (length options)) _ _
      (λ some_left.
        Returns-bind _ _ (read_option options off) _ (read_option-encode_option options off bytes)
          (λ r e p. rw (slice_lem options off r.1 (omega arith) p.1) (
            p.1,
            ground (arith, p.0),
            λ copy later. record {
              found = r.0 ∷ later.found;
              listed = reads e later.listed;
              copied = later.copied ∙ kept_round r.0 _ p.2 later.found;
            },
          )))
      (λ none_left. record {
        found = [];
        listed = ends (ground arith);
        copied = sym (append-nil kept);
      })
  where
    kept_round :
        (o : EdnsOption) (t : List ℕ)
        → t ≡ encode_option o
        → (os : List EdnsOption)
        → (if is_private o then kept else kept ++ t) ++ encode_public os
          ≡ kept ++ encode_public (o ∷ os)
    kept_round o t e os = elim (Bool-cases (is_private o)) [
      | inl private ↦ rw private refl
      | inr public ↦ rw (public, e) (append_assoc kept (encode_option o) (encode_public os))
    ]

-- The loop of `prepare` over the client's option bytes ends, and never reads out of range. If it
-- accepts, the bytes can be read as options to their end, and what it sends on is these options
-- without client subnets and cookies, in their order, each with its code, the length of its data and
-- the data.
pub keep_options-PublicCopy :
    (options : List ℕ)
    → All IsByte options
    → Returns (PublicCopy options 0 []) (keep_options options)
unfolding keep_options
keep_options-PublicCopy options bytes =
    loop-history (λ s. s.0 ≤ length options) (λ s. length options - s.0)
      (λ s copy. PublicCopy options s.0 s.1 copy) (keep_options_step options)
      (keep_options_step_lem options bytes) (length options + 1) (0, []) (omega arith) (omega arith)
