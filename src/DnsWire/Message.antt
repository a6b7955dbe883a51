-- ===== src/DnsWire/Message.antt =====
-- internal/dnswire/records.go: the loop over a scanner's records, `ScanMessage` and `ParseRequest`.
pub mod Tiles
pub mod Request
use dimsum.Prelude.{
  ℕ, ◌+◌, ◌*◌, ◌%◌, Bool, false, ◌||◌, not, Option, none, List, ◌==◌, sum, Result, ok, ◌>>=◌, ◌>>◌,
  guard, Round, done, more, loop,
}
use dimsum.DnsWire.Errors
use dimsum.DnsWire.Errors.{WireError}
use dimsum.DnsWire.Header.{Header, Question, parse_header, is_response, opcode_of, request_error}
use dimsum.DnsWire.Record.{ResourceRecord, Edns, Marks}
use dimsum.DnsWire.Scanner.{Scanner, Next, finished, found, init, next}

-- The variables of a loop over records: an accumulator, the scanner and the marks.
pub record Visit (A : Type 0) : Type 0 where
  pub acc : A
  pub scanner : Scanner
  pub names : Option Marks

module _ {A : Type 0} (body : A → ResourceRecord → Result WireError A) where
  unfoldable pub visit_found : Visit A → Next → Result WireError (Round (Visit A) (A × Scanner))
  visit_found v finished = ok (done (v.acc, v.scanner))
  visit_found v (found r s names) = do
    acc ← body v.acc r
    ok (more (record { acc = acc; scanner = s; names = names }))

  unfoldable pub visit_step : Visit A → Result WireError (Round (Visit A) (A × Scanner))
  visit_step v = do n ← next v.scanner v.names; visit_found v n

  -- `for s.Next(&rr) { body }` and the check of `s.Err()` behind it. Every round uses up one of the
  -- records that the header declares.
  unfoldable pub for_records : A → Scanner → Option Marks → Result WireError (A × Scanner)
  for_records acc s names =
      loop (sum s.counts + 1) visit_step (record { acc = acc; scanner = s; names = names })

pub record Message : Type 0 where
  pub question : Question
  pub edns : Edns
  pub rcode : ℕ
  pub has_authentication : Bool

-- The body of the loop in `ScanMessage`: TKEY or TSIG.
unfoldable pub note_authentication : Bool → ResourceRecord → Result WireError Bool
note_authentication auth r = ok (auth || r.rtype == 249 || r.rtype == 250)

unfoldable pub scan_message : List ℕ → Result WireError Message
scan_message msg = do
  s ← init msg
  (auth, s') ← for_records note_authentication false s none
  ok (record {
    question = s'.question;
    edns = s'.edns;
    rcode = s'.edns.extended_rcode * 16 + s'.question.header.flags % 16;
    has_authentication = auth;
  })

-- `ParseRequest`: the message, or the error that decides the reply.
unfoldable pub parse_request : List ℕ → Result WireError Message
parse_request msg = do
  h ← parse_header msg
  guard (not (is_response h.flags)) WireError.response
  guard (opcode_of h.flags == 0) WireError.opcode
  m ← scan_message msg
  u ← request_error m.question
  guard (not m.has_authentication) WireError.unsupported
  guard (m.edns.version == 0) WireError.bad_version
  guard (m.edns.extended_rcode == 0) WireError.bad_edns
  ok m
