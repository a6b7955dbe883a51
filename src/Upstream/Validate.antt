-- ===== src/Upstream/Validate.antt =====
-- internal/upstream/validate.go: `validate` for a response and `prepare` for the query that goes out.
-- The question that `prepare` returns beside an error is left out.
pub mod Matched
pub mod Prepared
mod Tests
use dimsum.Prelude.{
  Bool, List, Result, Round, [], done, err, guard, if◌then◌else◌, leb, length, loop, ltb, more, not,
  ok, panic, stuck, ℕ, ◌%◌, ◌&&◌, ◌++◌, ◌+◌, ◌/◌, ◌==◌, ◌||◌, ◌∷◌, ◌>>=◌, ◌>>◌,
}
use dimsum.Prelude.Bytes.{bit, bytes_eq, slice}
use dimsum.DnsWire.Errors.{WireError, bounds, unsupported}
use dimsum.DnsWire.Header.{Question, is_response, opcode_of}
use dimsum.DnsWire.Record.{Edns, EdnsOption, read_option}
use dimsum.DnsWire.Message.{Message, parse_request, scan_message}

-- ErrResponse
pub data ResponseError : Type 0 where
  bad_response : ResponseError

-- `if err != nil { return m, ErrResponse }`
unfoldable pub or_response {ℓ} : {A : Type ℓ} → Result WireError A → Result ResponseError A
or_response (ok a) = ok a
or_response (err e) = err bad_response
or_response panic = panic
or_response stuck = stuck

-- Client subnet and COOKIE
abbrev pub is_private : EdnsOption → Bool
is_private o = o.code == 8 || o.code == 10

unfoldable pub check_options_step : List ℕ → ℕ → Result ResponseError (Round ℕ (Unit {0}))
check_options_step options off =
    if ltb off (length options)
    then (do
      (option, next) ← or_response (read_option options off)
      guard (not (is_private option)) bad_response
      ok (more next))
    else ok (done tt)

unfoldable pub check_options : List ℕ → Result ResponseError (Unit {0})
check_options options = loop (length options + 1) (check_options_step options) 0

-- The condition on the question, the header and EDNS. A name's arrays are equal if their lengths
-- and their first `Length` bytes are.
unfoldable pub matches_query : Message → Question → ℕ → Bool
matches_query m q id =
    let r = m.question in
    r.header.id == id
    && is_response r.header.flags
    && opcode_of r.header.flags == opcode_of q.header.flags
    && r.qtype == q.qtype
    && r.qclass == q.qclass
    && length r.name.wire == length q.name.wire
    && bytes_eq r.name.canonical q.name.canonical
    && not m.has_authentication
    && m.edns.version == 0

unfoldable pub validate : List ℕ → Question → ℕ → Result ResponseError Message
validate wire q id = do
  m ← or_response (scan_message wire)
  guard (matches_query m q id) bad_response
  u ← check_options m.edns.options
  ok m

-- `binary.BigEndian.AppendUint16`
abbrev pub bytes2 : ℕ → List ℕ
bytes2 n = (n / 256 % 256) ∷ (n % 256) ∷ []

-- The flags RD and CD
abbrev pub kept_flags : ℕ → ℕ
kept_flags flags = (if bit flags 8 then 256 else 0) + (if bit flags 4 then 16 else 0)

-- The loop over the client's options, which leaves out the private ones.
unfoldable pub keep_options_step :
    List ℕ → ℕ × List ℕ → Result WireError (Round (ℕ × List ℕ) (List ℕ))
keep_options_step options (off, kept) =
    if ltb off (length options)
    then (do
      (option, next) ← read_option options off
      piece ← slice options off next
      ok (more (next, if is_private option then kept else kept ++ piece)))
    else ok (done kept)

unfoldable pub keep_options : List ℕ → Result WireError (List ℕ)
keep_options options = loop (length options + 1) (keep_options_step options) (0, [])

-- The OPT record that goes out, for a UDP size of 1232
unfoldable pub query_opt : Edns → List ℕ → List ℕ
query_opt e kept =
    (0 ∷ 0 ∷ 41 ∷ 4 ∷ 208 ∷ 0 ∷ 0 ∷ (if e.dnssec_ok then 128 else 0) ∷ 0 ∷ [])
    ++ (bytes2 (length kept) ++ kept)

unfoldable pub query_bytes : Question → Bool → List ℕ → List ℕ
query_bytes q present opt =
    (0 ∷ 0 ∷ [])
    ++ (bytes2 (kept_flags q.header.flags)
        ++ ((0 ∷ 1 ∷ 0 ∷ 0 ∷ 0 ∷ 0 ∷ 0 ∷ (if present then 1 else 0) ∷ [])
            ++ (q.name.wire ++ (bytes2 q.qtype ++ (bytes2 q.qclass ++ opt)))))

unfoldable pub is_plain_query : Message → Bool
is_plain_query m =
    let h = m.question.header in
    h.answers == 0 && h.authorities == 0 && h.additionals == (if m.edns.present then 1 else 0)

unfoldable pub prepare : List ℕ → Result WireError (List ℕ × Question)
prepare wire = do
  m ← parse_request wire
  let q = m.question
  guard (is_plain_query m) WireError.unsupported
  kept ← if m.edns.present then keep_options m.edns.options else ok []
  let p = query_bytes q m.edns.present (if m.edns.present then query_opt m.edns kept else [])
  guard (leb (length p) 65_535) WireError.bounds
  ok (p, q)
