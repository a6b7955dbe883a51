-- ===== src/Upstream/Validate/Matched.antt =====
-- What a response that `validate` of internal/upstream/validate.go accepts has in common with the query.
use dimsum.Prelude.{
  All, Extends, List, Result, Returns, Returns-bind, Returns-guard, Returns-if, [], arith, err,
  false, length, loop-history, ltb, not, ok, panic, refl, stuck, true, ℕ, ◌+◌, ◌-◌, ◌∷◌, ◌≡◌, ◌≢◌,
  ◌≤◌,
}
use dimsum.Prelude.Bytes.{IsByte, bytes_eq_iff}
use dimsum.DnsWire.Errors.{WireError}
use dimsum.DnsWire.Header.{Question, is_response, opcode_of}
use dimsum.DnsWire.Record.{EdnsOption, read_option}
use dimsum.DnsWire.Record.Safety.{read_option_lem}
use dimsum.DnsWire.Message.{Message, scan_message}
use dimsum.DnsWire.Message.Tiles.{IsScanned, scan_message-IsScanned}
use dimsum.Upstream.Validate.{
  bad_response, check_options, check_options_step, is_private, matches_query, or_response, validate,
}

-- The options that lie behind an offset, one behind the other up to the end.
pub data Reads (options : List ℕ) : ℕ → List EdnsOption → Type 0 where
  ends : {off : ℕ} → length options ≤ off → Reads options off []
  reads :
      {off next : ℕ} {o : EdnsOption} {os : List EdnsOption}
      → read_option options off ≡ ok (o, next)
      → Reads options next os
      → Reads options off (o ∷ os)

abbrev pub IsPublic : EdnsOption → Type 0
IsPublic o = (o.code ≢ 8) × (o.code ≢ 10)

-- From an offset to the end there are only options that are not private.
pub record OnlyPublic (options : List ℕ) (off : ℕ) : Type 0 where
  pub found : List EdnsOption
  pub listed : Reads options off found
  pub public : All IsPublic found

or_response-Returns :
    {A : Type 0} (P : A → Type 0) (r : Result WireError A)
    → Returns P r
    → Returns (λ a. P a × (r ≡ ok a)) (or_response r)
unfolding or_response
or_response-Returns P (ok a) h = (h, refl)
or_response-Returns P (err e) h = tt
or_response-Returns P panic h = h
or_response-Returns P stuck h = h

check_options_step_lem :
    (options : List ℕ) (off : ℕ)
    → off ≤ length options
    → Returns
        (Extends
          (λ i. i ≤ length options)
          (λ i. length options - i)
          (λ i _. OnlyPublic options i)
          off)
        (check_options_step options off)
unfolding check_options_step
check_options_step_lem options off h =
    Returns-if _ (ltb off (length options)) _ _
      (λ some_left.
        Returns-bind _ _ (or_response (read_option options off)) _
          (or_response-Returns _ (read_option options off) (read_option_lem options off))
          (λ r e p. Returns-guard _ (not (is_private r.0)) bad_response _ (λ public. (
            p.0.1,
            ground (arith, p.0.0),
            λ _ later. record {
              found = r.0 ∷ later.found;
              listed = reads p.1 later.listed;
              public = ((ground arith, ground arith), later.public);
            },
          ))))
      (λ none_left. record { found = []; listed = ends (ground arith); public = tt })

check_options-OnlyPublic :
    (options : List ℕ) → Returns (λ _. OnlyPublic options 0) (check_options options)
unfolding check_options
check_options-OnlyPublic options =
    loop-history (λ i. i ≤ length options) (λ i. length options - i) (λ i _. OnlyPublic options i)
      (check_options_step options) (check_options_step_lem options) (length options + 1) 0
      (omega arith) (omega arith)

-- The contract of a response to the query `q` that was sent under `id`.
pub record IsAnswer (wire : List ℕ) (q : Question) (id : ℕ) (m : Message) : Type 0 where
  pub scanned : IsScanned wire m
  pub same_id : m.question.header.id ≡ id
  pub response : is_response m.question.header.flags ≡ true
  pub same_opcode : opcode_of m.question.header.flags ≡ opcode_of q.header.flags
  pub same_type : m.question.qtype ≡ q.qtype
  pub same_class : m.question.qclass ≡ q.qclass
  pub same_name : m.question.name.canonical ≡ q.name.canonical
  pub unsigned : m.has_authentication ≡ false
  pub version : m.edns.version ≡ 0
  pub options : OnlyPublic m.edns.options 0

matches_query-IsAnswer :
    (wire : List ℕ) (q : Question) (id : ℕ) (m : Message)
    → IsScanned wire m
    → matches_query m q id ≡ true
    → OnlyPublic m.edns.options 0
    → IsAnswer wire q id m
unfolding matches_query
matches_query-IsAnswer wire q id m k matched options = record {
  scanned = k;
  same_id = ground arith;
  response = ground arith;
  same_opcode = ground arith;
  same_type = ground arith;
  same_class = ground arith;
  same_name = (bytes_eq_iff m.question.name.canonical q.name.canonical).0 (ground arith);
  unsigned = ground arith;
  version = ground arith;
  options = options;
}

-- `validate` on a message of bytes ends, and never reads out of range. It accepts only a message
-- that `ScanMessage` accepts, that is a response with the identifier it is asked for and with the
-- query's opcode, type, class and name up to case, that has no TKEY or TSIG and EDNS version 0,
-- and whose EDNS options, read to their end, are neither a client subnet nor a cookie.
pub validate-IsAnswer :
    (wire : List ℕ) (q : Question) (id : ℕ)
    → All IsByte wire
    → Returns (IsAnswer wire q id) (validate wire q id)
unfolding validate
validate-IsAnswer wire q id bytes =
    let P = IsAnswer wire q id in
    Returns-bind P _ (or_response (scan_message wire)) _
      (or_response-Returns (IsScanned wire) (scan_message wire) (scan_message-IsScanned wire bytes))
      λ m e k. Returns-guard P (matches_query m q id) bad_response _ λ matched.
        Returns-bind P _ (check_options m.edns.options) _ (check_options-OnlyPublic m.edns.options)
          λ u e₁ options. matches_query-IsAnswer wire q id m k.0 matched options
