-- ===== src/DnsWire/Scanner/Steps.antt =====
-- `Scanner.Next` as a step: what one call promises, and what the loop `for s.Next(&rr)` visits.
use dimsum.Prelude.{
  ℕ, ◌+◌, ◌-◌, ◌≤◌, ◌<◌, ◌≡◌, refl, ◌∙◌, Option, none, List, arith, ltb, ◌==◌, length, get_or, All,
  length-set, sum, sum-set_pred, take-set_le, Returns, Returns-bind, Returns-if, Returns-guard,
}
use dimsum.Prelude.Bytes.{IsByte, byte, at-byte}
use dimsum.DnsWire.Header.{parse_question}
use dimsum.DnsWire.Record.{ResourceRecord, Edns, Marks, additional}
use dimsum.DnsWire.Scanner.{
  Scanner, Next, finished, found, init, next_section, read_record, check_record, next,
  section_counts,
}
use dimsum.DnsWire.Scanner.Safety.{
  IsQuestion, parse_question-IsQuestion, IsScanning, SectionEnds, next_section_lem, IsRecord,
  read_record_lem, check_record_lem,
}

-- The records that the scanner has still to visit.
abbrev pub left_of : Scanner → ℕ
left_of s = sum s.counts

-- One call of `Next`: the end of the message with nothing left, or a record at the scanner's offset
-- and the scanner behind it with one record less.
pub record Found (s : Scanner) (r : ResourceRecord) (s' : Scanner) : Type 0 where
  pub section : ℕ
  pub item : IsRecord s.msg s.off section r
  pub low : section ≤ 2
  pub scanning : IsScanning s'
  pub message : s'.msg ≡ s.msg
  pub question : s'.question ≡ s.question
  pub moved : s'.off ≡ r.end
  pub fewer : left_of s' + 1 ≡ left_of s

abbrev pub NextPost : Scanner → Next → Type 0
NextPost s finished = (s.off ≡ length s.msg) × (left_of s ≡ 0)
NextPost s (found r s' names) = Found s r s' × (names ≡ none)

-- `Next` on a scanner that `Init` or `Next` left never panics. It ends the message only at its last
-- byte and with no declared record left; otherwise it returns the record that starts at the
-- scanner's offset and lies inside the message, and leaves the scanner at the record's end with one
-- declared record less.
pub next_lem : (s : Scanner) → IsScanning s → Returns (NextPost s) (next s none)
unfolding next
next_lem s h =
    Returns-bind (NextPost s) (SectionEnds s.counts) (next_section s.counts s.section) _
      (next_section_lem s.counts s.section h.three (h.low, h.cleared))
      λ n e ends.
        Returns-if (NextPost s) (ltb additional n) _ _
          (λ over.
            Returns-guard (NextPost s) (s.off == length s.msg) _ _
              (λ last. (ground arith, ground arith)))
          (λ open_section.
            let low : (n ≤ 2) × (0 < get_or s.counts n 0) = (ground arith, ground arith) in
            Returns-bind (NextPost s)
              (λ (p : ResourceRecord × Option Marks). IsRecord s.msg s.off n p.0 × (p.1 ≡ none))
              (read_record s n none) _ (read_record_lem s h n)
              λ p e₁ item. rw item.1 (
                Returns-bind (NextPost s) (λ (q : Edns × Option Marks). q.1 ≡ none)
                  (check_record s p.0 none) _ (check_record_lem s h n p.0 item.0)
                  λ q e₂ unmarked. rw (at-byte s.counts n (omega (arith, h.three))) (
                    record {
                      section = n;
                      item = item.0;
                      low = low.0;
                      scanning = record {
                        octets = h.octets;
                        plain = h.plain;
                        inside = item.0.inside;
                        three = length-set s.counts n (byte s.counts n - 1) ∙ h.three;
                        low = omega (arith, low.0);
                        cleared =
                            rw (take-set_le s.counts n n (byte s.counts n - 1) (omega arith))
                              ends.1;
                      };
                      message = refl;
                      question = refl;
                      moved = refl;
                      fewer = sum-set_pred s.counts n (omega (arith, h.three)) low.1;
                    },
                    unmarked,
                  )))

-- After `Init` the scanner stands behind the question, with the header's counts to visit.
pub record Started (msg : List ℕ) (s : Scanner) : Type 0 where
  pub scanning : IsScanning s
  pub message : s.msg ≡ msg
  pub asked : IsQuestion msg s.question
  pub behind : s.off ≡ s.question.end
  pub counts : s.counts ≡ section_counts s.question.header

pub init_lem : (msg : List ℕ) → All IsByte msg → Returns (Started msg) (init msg)
unfolding init
init_lem msg bytes =
    Returns-bind (Started msg) (IsQuestion msg) (parse_question msg) _
      (parse_question-IsQuestion msg bytes)
      λ q e k. record {
        scanning = record {
          octets = bytes;
          plain = refl;
          inside = k.inside;
          three = refl;
          low = omega arith;
          cleared = refl;
        };
        message = refl;
        asked = k;
        behind = refl;
        counts = refl;
      }
