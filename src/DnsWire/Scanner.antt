-- ===== src/DnsWire/Scanner.antt =====
-- internal/dnswire/records.go: `Scanner`. `Next` returning false with an error is `err`; returning
-- false without one is `finished`.
pub mod Safety
pub mod Steps
use dimsum.Prelude.{
  ℕ, zero, suc, ◌+◌, ◌-◌, ◌/◌, ◌%◌, Bool, true, false, ◌||◌, not, Option, none, some, List, [], ◌∷◌,
  ltb, leb, ◌==◌, if◌then◌else◌, length, set, Result, ok, err, ◌>>=◌, ◌>>◌, guard, Round, done,
  more, loop,
}
use dimsum.Prelude.Bytes.{at, slice, u16, u32, bit}
use dimsum.DnsWire.Errors
use dimsum.DnsWire.Errors.{WireError}
use dimsum.DnsWire.Name.{Name, decode_name}
use dimsum.DnsWire.Header.{Header, Question, parse_header, parse_question}
use dimsum.DnsWire.Record.{
  ResourceRecord, Edns, Marks, additional, no_edns, read_options, decode_checked,
}
use dimsum.DnsWire.Rdata.{validate_rdata}

-- `counts` are the records that are left in each section.
pub record Scanner : Type 0 where
  pub question : Question
  pub edns : Edns
  pub msg : List ℕ
  pub reference : Option (List ℕ)
  pub off : ℕ
  pub counts : List ℕ
  pub section : ℕ
  pub multicast : Bool

abbrev pub section_counts : Header → List ℕ
section_counts h = h.answers ∷ h.authorities ∷ h.additionals ∷ []

unfoldable pub init : List ℕ → Result WireError Scanner
init msg = do
  q ← parse_question msg
  ok (record {
    question = q;
    edns = no_edns;
    msg = msg;
    reference = none;
    off = q.end;
    counts = section_counts q.header;
    section = 0;
    multicast = false;
  })

-- The questions of a multicast message: the offset behind them.
unfoldable pub skip_questions : List ℕ → ℕ → ℕ → Result WireError ℕ
skip_questions msg zero off = ok off
skip_questions msg (suc left) off = do
  n ← decode_name msg off
  guard (leb (n.end + 4) (length msg)) WireError.bounds
  skip_questions msg left (n.end + 4)

-- The zero `Question`, whose header is filled in.
abbrev blank_question : Header → Question
blank_question h = record {
  header = h;
  name = record { wire = []; canonical = []; end = 0; compressed = false };
  qtype = 0;
  qclass = 0;
  start = 0;
  end = 0;
  original = [];
}

unfoldable pub init_multicast : List ℕ → Result WireError Scanner
init_multicast msg = do
  h ← parse_header msg
  guard (leb h.questions 128) WireError.question_count
  off ← skip_questions msg h.questions 12
  ok (record {
    question = blank_question h;
    edns = no_edns;
    msg = msg;
    reference = none;
    off = off;
    counts = section_counts h;
    section = 0;
    multicast = true;
  })

-- `for s.section <= Additional && s.counts[s.section] == 0 { s.section++ }`
unfoldable pub section_step : List ℕ → ℕ → Result WireError (Round ℕ ℕ)
section_step counts section =
    if leb section additional
    then (do n ← at counts section; if n == 0 then ok (more (section + 1)) else ok (done section))
    else ok (done section)

unfoldable pub next_section : List ℕ → ℕ → Result WireError ℕ
next_section counts section = loop 4 (section_step counts) section

unfoldable pub read_opt : Scanner → ResourceRecord → Result WireError Edns
read_opt s r =
    if s.edns.present
      || not (r.section == additional)
      || not (length r.name.wire == 1)
      || r.name.compressed
    then err WireError.bad_edns
    else (do
      u ← read_options r.rdata
      ok (record {
        present = true;
        dnssec_ok = bit r.ttl 15;
        udp_size = r.rclass;
        flags = r.ttl % 65536;
        version = r.ttl / 65536 % 256;
        extended_rcode = r.ttl / 16777216 % 256;
        record_offset = r.start;
        options = r.rdata;
      }))

-- The record at the scanner's offset, with the marks of its owner name.
unfoldable pub read_record :
    Scanner → ℕ → Option Marks → Result WireError (ResourceRecord × Option Marks)
read_record s section names = do
  (name, names') ← decode_checked s.msg s.reference s.off names
  let off = name.end
  guard (leb 10 (length s.msg - off)) WireError.bounds
  rtype ← u16 s.msg off
  rclass ← u16 s.msg (off + 2)
  ttl ← u32 s.msg (off + 4)
  size ← u16 s.msg (off + 8)
  let end = off + 10 + size
  guard (leb end (length s.msg)) WireError.bounds
  rdata ← slice s.msg (off + 10) end
  ok (
    record {
      name = name;
      rtype = rtype;
      rclass = rclass;
      ttl = ttl;
      section = section;
      start = s.off;
      ttl_offset = if rtype == 41 then none else some (off + 4);
      data_offset = off + 10;
      end = end;
      rdata = rdata;
    },
    names',
  )

-- The checks of the record's data: the scanner's EDNS and the marks after them.
unfoldable pub check_record :
    Scanner → ResourceRecord → Option Marks → Result WireError (Edns × Option Marks)
check_record s r names =
    if r.rtype == 41
    then (do edns ← read_opt s r; ok (edns, names))
    else if not s.multicast || not (r.rtype == 47)
    then (do names' ← validate_rdata s.msg s.reference r names s.multicast; ok (s.edns, names'))
    else ok (s.edns, names)

pub data Next : Type 0 where
  finished : Next
  found : ResourceRecord → Scanner → Option Marks → Next

-- `next`; `Next` is `next s none`.
unfoldable pub next : Scanner → Option Marks → Result WireError Next
next s names = do
  section ← next_section s.counts s.section
  if ltb additional section
      then (do guard (s.off == length s.msg) WireError.trailing; ok finished)
      else (do
        (r, names₁) ← read_record s section names
        (edns, names₂) ← check_record s r names₁
        left ← at s.counts section
        ok (
            found r
              (record s {
                edns = edns;
                off = r.end;
                counts = set s.counts section (left - 1);
                section = section;
              })
              names₂))
