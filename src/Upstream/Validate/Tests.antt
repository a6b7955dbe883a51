-- ===== src/Upstream/Validate/Tests.antt =====
-- Runs of `validate` and `prepare` of internal/upstream/validate.go.
use dimsum.Upstream.Validate.Prepared.{PublicCopy, keep_options-PublicCopy}
use dimsum.Prelude.{
  Bool, List, Result, Returns, [], arith, drop, err, false, loop, ok, panic, refl, stuck, true, ℕ,
  ◌++◌, ◌∷◌, ◌≡◌,
}
use dimsum.Prelude.Bytes.{bytes_eq, slice, u16, u32, bytes_key}
use dimsum.DnsWire.Errors.{WireError}
use dimsum.DnsWire.Labels.{wire_of}
use dimsum.DnsWire.Samples.{go_dev, query, reply}
use dimsum.DnsWire.Name.{contains, decode_name, decode_step}
use dimsum.DnsWire.Header.{Question, parse_header, parse_question, request_error}
use dimsum.DnsWire.Record.{
  add_name, add_step, decode_checked, options_step, read_option, read_options,
}
use dimsum.DnsWire.Rdata.{
  bitmap_step, denial_data, embedded_names, name_fields, params_step, rdata_name, service_data,
  signature_data, text_data, text_step, validate_rdata,
}
use dimsum.DnsWire.Scanner.{
  check_record, init, next, next_section, read_opt, read_record, section_step,
}
use dimsum.DnsWire.Message.{
  Message, for_records, note_authentication, parse_request, scan_message, visit_found, visit_step,
}
use dimsum.Upstream.Validate.{
  ResponseError, bad_response, check_options, check_options_step, is_plain_query, keep_options,
  keep_options_step, matches_query, or_response, prepare, query_bytes, query_opt, validate,
}
use dimsum.Upstream.Validate.Matched.{IsAnswer, validate-IsAnswer}

program : Unit {0}
unfolding slice u16 u32 bytes_eq loop contains decode_step decode_name parse_header parse_question
    request_error read_option options_step read_options add_step add_name decode_checked text_step
    params_step bitmap_step rdata_name embedded_names name_fields text_data service_data
    signature_data denial_data validate_rdata init section_step next_section read_opt read_record
    check_record next visit_found visit_step for_records note_authentication scan_message
    parse_request or_response check_options_step check_options matches_query validate
    keep_options_step keep_options query_opt query_bytes is_plain_query prepare
program = tt

abbrev no_question : Question
no_question = record {
  header = record {
    id = 0;
    flags = 0;
    questions = 0;
    answers = 0;
    authorities = 0;
    additionals = 0;
  };
  name = record { wire = []; canonical = []; end = 0; compressed = false };
  qtype = 0;
  qclass = 0;
  start = 0;
  end = 0;
  original = [];
}

abbrev asked : Question
asked = elim (scan_message query) [
  | ok m ↦ m.question
  | err e ↦ no_question
  | panic ↦ no_question
  | stuck ↦ no_question
]

abbrev is_accepted : Result ResponseError Message → Bool
is_accepted (ok m) = true
is_accepted r = false

accepts_reply : is_accepted (validate reply asked 7) ≡ true
unfolding program
accepts_reply = refl

rejects_other_id : validate reply asked 8 ≡ err bad_response
unfolding program
rejects_other_id = refl

rejects_query : validate query asked 7 ≡ err bad_response
unfolding program
rejects_query = refl

-- A query and a response with one EDNS option, and its code.
abbrev with_option : ℕ → ℕ → List ℕ
with_option flags code =
    (0 ∷ 7 ∷ flags ∷ 0 ∷ 0 ∷ 1 ∷ 0 ∷ 0 ∷ 0 ∷ 0 ∷ 0 ∷ 1 ∷ [])
    ++ (wire_of go_dev
        ++ (0 ∷ 0 ∷ 1 ∷ 0 ∷ 1 ∷ 0 ∷ 0 ∷ 41 ∷ 4 ∷ 208 ∷ 0 ∷ 0 ∷ 0 ∷ 0 ∷ 0 ∷ 5 ∷ 0 ∷ code ∷ 0 ∷ 1 ∷ 9
            ∷ []))

rejects_subnet : validate (with_option 129 8) asked 7 ≡ err bad_response
unfolding program
rejects_subnet = refl

accepts_padding : is_accepted (validate (with_option 129 12) asked 7) ≡ true
unfolding program
accepts_padding = refl

abbrev sent_bytes : Result WireError (List ℕ × Question) → List ℕ
sent_bytes (ok (p, q)) = p
sent_bytes r = []

strips_cookie :
    drop 24 (sent_bytes (prepare (with_option 1 10)))
    ≡ 0 ∷ 0 ∷ 41 ∷ 4 ∷ 208 ∷ 0 ∷ 0 ∷ 0 ∷ 0 ∷ 0 ∷ 0 ∷ []
unfolding program
strips_cookie = refl

validate-IsAnswer_example : Returns (IsAnswer reply asked 7) (validate reply asked 7)
validate-IsAnswer_example = validate-IsAnswer reply asked 7 (omega arith)

-- A cookie between two other options.
abbrev three_options : List ℕ
three_options = 0 ∷ 12 ∷ 0 ∷ 1 ∷ 9 ∷ 0 ∷ 10 ∷ 0 ∷ 2 ∷ 5 ∷ 6 ∷ 0 ∷ 3 ∷ 0 ∷ 0 ∷ []

keeps_two : keep_options three_options ≡ ok (0 ∷ 12 ∷ 0 ∷ 1 ∷ 9 ∷ 0 ∷ 3 ∷ 0 ∷ 0 ∷ [])
unfolding program
keeps_two = refl

keep_options-PublicCopy_example :
    Returns (PublicCopy three_options 0 []) (keep_options three_options)
keep_options-PublicCopy_example = keep_options-PublicCopy three_options (omega arith)
