-- ===== src/DnsWire/Header.antt =====
-- internal/dnswire/question.go: the header, the question and the checks of a client's question.
use dimsum.Prelude.{
  ℕ, ◌+◌, ◌-◌, ◌/◌, ◌%◌, ◌^◌, Bool, ◌||◌, not, List, ltb, leb, ◌==◌, if◌then◌else◌, length, Result,
  ok, err, ◌>>=◌, ◌>>◌, guard,
}
use dimsum.Prelude.Bytes.{slice, u16, bit}
use dimsum.DnsWire.Errors.{WireError, max_message_len}
use dimsum.DnsWire.Name.{Name, decode_name}

pub record Header : Type 0 where
  pub id : ℕ
  pub flags : ℕ
  pub questions : ℕ
  pub answers : ℕ
  pub authorities : ℕ
  pub additionals : ℕ

unfoldable pub parse_header : List ℕ → Result WireError Header
parse_header msg =
    if ltb (length msg) 12 || ltb max_message_len (length msg) then err WireError.bounds else (do
      id ← u16 msg 0
      flags ← u16 msg 2
      questions ← u16 msg 4
      answers ← u16 msg 6
      authorities ← u16 msg 8
      additionals ← u16 msg 10
      ok (record {
        id = id;
        flags = flags;
        questions = questions;
        answers = answers;
        authorities = authorities;
        additionals = additionals;
      }))

pub record Question : Type 0 where
  pub header : Header
  pub name : Name
  pub qtype : ℕ
  pub qclass : ℕ
  pub start : ℕ
  pub end : ℕ
  pub original : List ℕ

unfoldable pub parse_question : List ℕ → Result WireError Question
parse_question msg = do
  h ← parse_header msg
  guard (h.questions == 1) WireError.question_count
  name ← decode_name msg 12
  let off = name.end
  guard (leb 4 (length msg - off)) WireError.bounds
  qtype ← u16 msg off
  qclass ← u16 msg (off + 2)
  original ← slice msg 12 (off + 4)
  ok (record {
    header = h;
    name = name;
    qtype = qtype;
    qclass = qclass;
    start = 12;
    end = off + 4;
    original = original;
  })

-- The flags of the header, by their bits: FlagQR is bit 15, the opcode bits 11 to 14.
abbrev pub is_response : ℕ → Bool
is_response flags = bit flags 15

abbrev pub opcode_of : ℕ → ℕ
opcode_of flags = flags / 2 ^ 11 % 16

-- `RequestError`; `ok tt` is nil.
unfoldable pub request_error : Question → Result WireError (Unit {0})
request_error q =
    if is_response q.header.flags
    then err WireError.response
    else if not (opcode_of q.header.flags == 0)
    then err WireError.opcode
    else if not (q.qclass == 1)
    then err WireError.class
    else if q.qtype == 249 || q.qtype == 250 || q.qtype == 251 || q.qtype == 252
    then err WireError.unsupported
    else ok tt
