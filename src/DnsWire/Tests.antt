-- ===== src/DnsWire/Tests.antt =====
-- Runs of the parser on concrete messages, and its theorems at such inputs.
use dimsum.Prelude.{
  ℕ, ◌≡◌, refl, Bool, true, false, Option, none, some, List, [], ◌∷◌, ◌++◌, map, arith, take,
  Result, ok, err, Returns, loop,
}
use dimsum.Prelude.Bytes.{slice, u16, u32, bytes_eq}
use dimsum.DnsWire.Errors.{WireError}
use dimsum.DnsWire.Labels.{wire_of}
use dimsum.DnsWire.Samples.{go_dev, query, reply}
use dimsum.DnsWire.Name.{fold_case, contains, decode_step, decode_name}
use dimsum.DnsWire.Name.Safety.{IsDecoded, decode_name-IsDecoded}
use dimsum.DnsWire.Name.Plain.{decode_name-wire_of}
use dimsum.DnsWire.Header.{parse_header, parse_question, request_error}
use dimsum.DnsWire.Record.{
  read_option, options_step, read_options, add_step, add_name, decode_checked,
}
use dimsum.DnsWire.Rdata.{
  text_step, params_step, bitmap_step, rdata_name, embedded_names, name_fields, text_data,
  service_data, signature_data, denial_data, validate_rdata,
}
use dimsum.DnsWire.Scanner.{
  Scanner, init, section_step, next_section, read_opt, read_record, check_record, next,
}
use dimsum.DnsWire.Scanner.Steps.{NextPost, next_lem}
use dimsum.DnsWire.Message.{
  visit_found, visit_step, for_records, note_authentication, scan_message, parse_request,
}
use dimsum.DnsWire.Message.Tiles.{IsScanned, scan_message-IsScanned}
use dimsum.DnsWire.Message.Request.{IsRequest, parse_request-IsRequest}

program : Unit {0}
unfolding slice u16 u32 bytes_eq loop contains decode_step decode_name parse_header parse_question
    request_error read_option options_step read_options add_step add_name decode_checked text_step
    params_step bitmap_step rdata_name embedded_names name_fields text_data service_data
    signature_data denial_data validate_rdata init section_step next_section read_opt read_record
    check_record next visit_found visit_step for_records note_authentication scan_message
    parse_request
program = tt

-- Two pointers that name one another.
abbrev cycle : List ℕ
cycle = 192 ∷ 2 ∷ 192 ∷ 0 ∷ []

abbrev outcome {ℓ} : {E : Type 0} {A : Type ℓ} → Result E A → Option E
outcome (err e) = some e
outcome _ = none

abbrev is_ok {ℓ} : {E : Type 0} {A : Type ℓ} → Result E A → Bool
is_ok (ok a) = true
is_ok _ = false

decode_forward_pointer : decode_name cycle 0 ≡ err WireError.pointer
unfolding program
decode_forward_pointer = refl

decode_reply_owner :
    decode_name reply 24
    ≡ ok (record {
      wire = wire_of go_dev ++ (0 ∷ []);
      canonical = map fold_case (wire_of go_dev ++ (0 ∷ []));
      end = 26;
      compressed = true;
    })
unfolding program
decode_reply_owner = refl

query_accepted : is_ok (parse_request query) ≡ true
unfolding program
query_accepted = refl

reply_scanned : is_ok (scan_message reply) ≡ true
unfolding program
reply_scanned = refl

reply_refused : outcome (parse_request reply) ≡ some WireError.response
unfolding program
reply_refused = refl

reply_cut : outcome (scan_message (take 38 reply)) ≡ some WireError.bounds
unfolding program
reply_cut = refl

reply_padded : outcome (scan_message (reply ++ (0 ∷ []))) ≡ some WireError.trailing
unfolding program
reply_padded = refl

decode_name-IsDecoded_example : Returns (IsDecoded reply 24) (decode_name reply 24)
decode_name-IsDecoded_example = decode_name-IsDecoded reply 24 (omega arith)

decode_name-wire_of_example :
    decode_name ((1 ∷ 2 ∷ []) ++ (wire_of go_dev ++ (0 ∷ (9 ∷ [])))) 2
    ≡ ok (record {
      wire = wire_of go_dev ++ (0 ∷ []);
      canonical = map fold_case (wire_of go_dev ++ (0 ∷ []));
      end = 10;
      compressed = false;
    })
decode_name-wire_of_example =
    decode_name-wire_of (1 ∷ 2 ∷ []) (9 ∷ []) go_dev (omega arith) (omega arith) (omega arith)

scan_message-IsScanned_example : Returns (IsScanned reply) (scan_message reply)
scan_message-IsScanned_example = scan_message-IsScanned reply (omega arith)

parse_request-IsRequest_example : Returns (IsRequest query) (parse_request query)
parse_request-IsRequest_example = parse_request-IsRequest query (omega arith)

abbrev at_answer : Scanner
at_answer = record {
  question = record {
    header = record {
      id = 7;
      flags = 0x8180;
      questions = 1;
      answers = 1;
      authorities = 0;
      additionals = 0;
    };
    name = record {
      wire = wire_of go_dev ++ (0 ∷ []);
      canonical = map fold_case (wire_of go_dev ++ (0 ∷ []));
      end = 20;
      compressed = false;
    };
    qtype = 1;
    qclass = 1;
    start = 12;
    end = 24;
    original = wire_of go_dev ++ (0 ∷ 0 ∷ 1 ∷ 0 ∷ 1 ∷ []);
  };
  edns = record {
    present = false;
    dnssec_ok = false;
    udp_size = 0;
    flags = 0;
    version = 0;
    extended_rcode = 0;
    record_offset = 0;
    options = [];
  };
  msg = reply;
  reference = none;
  off = 24;
  counts = 1 ∷ 0 ∷ 0 ∷ [];
  section = 0;
  multicast = false;
}

at_answer_starts : init reply ≡ ok at_answer
unfolding program
at_answer_starts = refl

next_lem_example : Returns (NextPost at_answer) (next at_answer none)
next_lem_example = next_lem at_answer (record {
  octets = omega arith;
  plain = refl;
  inside = omega arith;
  three = refl;
  low = omega arith;
  cleared = refl;
})
