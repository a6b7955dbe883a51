-- ===== src/DnsWire/ReplyTests.antt =====
-- Runs of `BuildReply`, `FitReply` and `PrepareTemplate`, and their theorems at concrete messages.
use dimsum.Prelude.{
  ℕ, ◌≡◌, refl, true, false, List, [], ◌∷◌, ◌++◌, map, arith, take, replicate, Result, ok, err,
  Returns, loop,
}
use dimsum.Prelude.Bytes.{slice, u16, u32, bytes_eq}
use dimsum.DnsWire.Errors.{WireError}
use dimsum.DnsWire.Labels.{wire_of}
use dimsum.DnsWire.Samples.{go_dev, query, reply}
use dimsum.DnsWire.Name.{fold_case, contains, decode_step, decode_name}
use dimsum.DnsWire.Header.{parse_header, parse_question, request_error}
use dimsum.DnsWire.Record.{
  no_edns, read_option, options_step, read_options, add_step, add_name, decode_checked,
}
use dimsum.DnsWire.Rdata.{
  text_step, params_step, bitmap_step, rdata_name, embedded_names, name_fields, text_data,
  service_data, signature_data, denial_data, validate_rdata,
}
use dimsum.DnsWire.Scanner.{
  init, section_step, next_section, read_opt, read_record, check_record, next,
}
use dimsum.DnsWire.Message.{
  Message, visit_found, visit_step, for_records, note_authentication, scan_message, parse_request,
}
use dimsum.DnsWire.Template.{
  enclosing_from, enclosing, rescan_record, follow_links, negative_cname_authority, survey_record,
  template_ttl, patch_record, template_question, template_edns, prepare_template,
}
use dimsum.DnsWire.Build.{
  Reply, udp_budget, put8, put16, put32, null_size, put_answer, put_opt, put_question, build_reply,
  fit_reply,
}
use dimsum.DnsWire.Build.Answers.{IsReply, build_reply-IsReply}
use dimsum.DnsWire.Build.Fits.{Fitted, fit_reply-Fitted}

program : Unit {0}
unfolding slice u16 u32 bytes_eq loop contains decode_step decode_name parse_header parse_question
    request_error read_option options_step read_options add_step add_name decode_checked text_step
    params_step bitmap_step rdata_name embedded_names name_fields text_data service_data
    signature_data denial_data validate_rdata init section_step next_section read_opt read_record
    check_record next visit_found visit_step for_records note_authentication scan_message
    parse_request enclosing_from enclosing rescan_record follow_links negative_cname_authority
    survey_record template_ttl patch_record template_question template_edns prepare_template
    udp_budget put8 put16 put32 null_size put_answer put_opt put_question build_reply fit_reply
program = tt

-- The patch of the one TTL: at offset 30, 60 seconds.
reply_template :
    prepare_template reply 80 300
    ≡ ok (
      record { lifetime = 60; patches = 1; negative = false },
      0 ∷ 30 ∷ 0 ∷ 0 ∷ 0 ∷ 0 ∷ 0 ∷ 60 ∷ [],
    )
unfolding program
reply_template = refl

no_room_for_patches : prepare_template reply 7 300 ≡ err WireError.bounds
unfolding program
no_room_for_patches = refl

query_is_no_template : prepare_template query 80 300 ≡ err WireError.template
unfolding program
query_is_no_template = refl

-- The parsed query.
abbrev asked : Message
asked = record {
  question = record {
    header = record {
      id = 7;
      flags = 256;
      questions = 1;
      answers = 0;
      authorities = 0;
      additionals = 0;
    };
    name = record {
      wire = wire_of go_dev ++ (0 ∷ []);
      canonical = map fold_case (wire_of go_dev ++ (0 ∷ []));
      end = 20;
      compressed = false;
    };
    qtype = 1;
    qclass = 1;
    start = 12;
    end = 24;
    original = wire_of go_dev ++ (0 ∷ 0 ∷ 1 ∷ 0 ∷ 1 ∷ []);
  };
  edns = no_edns;
  rcode = 0;
  has_authentication = false;
}

asked_parsed : parse_request query ≡ ok asked
unfolding program
asked_parsed = refl

abbrev blocked : Reply
blocked = record {
  rcode = 0;
  null_answer = true;
  ttl = 10;
  recursion_available = true;
  truncated = false;
}

abbrev buffer : List ℕ
buffer = replicate 64 255

abbrev built : Result WireError (ℕ × List ℕ) → List ℕ
built (ok (n, p)) = take n p
built _ = []

-- A null answer: the address 0.0.0.0 for ten seconds.
null_reply :
    built (build_reply buffer asked blocked 1232)
    ≡ 0
      ∷ 7
      ∷ 129
      ∷ 128
      ∷ 0
      ∷ 1
      ∷ 0
      ∷ 1
      ∷ 0
      ∷ 0
      ∷ 0
      ∷ 0
      ∷ (wire_of go_dev
          ++ (0 ∷ 0 ∷ 1 ∷ 0 ∷ 1 ∷ 192 ∷ 12 ∷ 0 ∷ 1 ∷ 0 ∷ 1 ∷ 0 ∷ 0 ∷ 0 ∷ 10 ∷ 0 ∷ 4 ∷ 0 ∷ 0 ∷ 0 ∷ 0
              ∷ []))
unfolding program
null_reply = refl

-- The reply of 40 bytes does not fit 39: the client gets the question with TC.
truncated_reply :
    built (fit_reply buffer reply asked 39 1232)
    ≡ 0
      ∷ 7
      ∷ 131
      ∷ 128
      ∷ 0
      ∷ 1
      ∷ 0
      ∷ 0
      ∷ 0
      ∷ 0
      ∷ 0
      ∷ 0
      ∷ (wire_of go_dev ++ (0 ∷ 0 ∷ 1 ∷ 0 ∷ 1 ∷ []))
unfolding program
truncated_reply = refl

whole_reply : built (fit_reply buffer reply asked 40 1232) ≡ reply
unfolding program
whole_reply = refl

build_reply-IsReply_example :
    Returns (IsReply buffer asked blocked) (build_reply buffer asked blocked 1232)
build_reply-IsReply_example = build_reply-IsReply buffer asked blocked 1232

fit_reply-Fitted_example :
    Returns (Fitted buffer reply asked 39) (fit_reply buffer reply asked 39 1232)
fit_reply-Fitted_example = fit_reply-Fitted buffer reply asked 39 1232 (omega arith)
