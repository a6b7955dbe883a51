-- ===== src/DnsWire/Scanner/Safety.antt =====
-- `Scanner.Init` and `Scanner.Next` on any message.
use dimsum.Prelude.{
  ℕ, suc, ◌+◌, ◌-◌, ◌≤◌, ◌<◌, ◌≡◌, refl, ◌⊎◌, inl, inr, true, ◌||◌, not, Option, none, List, arith,
  ltb, leb, ◌==◌, length, get_or, take, All, sum, sum-take-suc, take_whole, Returns, Returns-bind,
  Returns-if, Returns-guard, Progress, loop-Returns,
}
use dimsum.Prelude.Bytes.{IsByte, byte, word, slice_lem, at-byte, u16-word, u32-word, span}
use dimsum.DnsWire.Name.{Name, decode_name}
use dimsum.DnsWire.Name.Safety.{IsDecoded, decode_name-IsDecoded}
use dimsum.DnsWire.Header.{Header, Question, parse_header, parse_question}
use dimsum.DnsWire.Record.{ResourceRecord, Edns, Marks, additional, read_options, decode_checked}
use dimsum.DnsWire.Record.Safety.{read_options_lem, decode_checked_lem}
use dimsum.DnsWire.Rdata.{validate_rdata}
use dimsum.DnsWire.Rdata.Safety.{validate_rdata_lem}
use dimsum.DnsWire.Scanner.{
  Scanner, section_step, next_section, read_opt, read_record, check_record,
}

pub record IsQuestion (msg : List ℕ) (q : Question) : Type 0 where
  pub name : IsDecoded msg 12 q.name
  pub start : q.start ≡ 12
  pub end : q.end ≡ q.name.end + 4
  pub inside : q.end ≤ length msg
  pub single : q.header.questions ≡ 1

pub parse_header_lem : (msg : List ℕ) → Returns (λ (h : Header). 12 ≤ length msg) (parse_header msg)
unfolding parse_header
parse_header_lem msg =
    Returns-if _ (ltb (length msg) 12 || ltb 65535 (length msg)) _ _ (λ _. tt)
      λ fits.
        rw
          (
            u16-word msg 0 (ground arith),
            u16-word msg 2 (ground arith),
            u16-word msg 4 (ground arith),
            u16-word msg 6 (ground arith),
            u16-word msg 8 (ground arith),
            u16-word msg 10 (ground arith),
          )
          (ground arith)

-- `ParseQuestion` on a message of bytes ends with an error or with the one question of the message,
-- whose name stands at offset 12 and whose four bytes of type and class lie inside the message.
pub parse_question-IsQuestion :
    (msg : List ℕ) → All IsByte msg → Returns (IsQuestion msg) (parse_question msg)
unfolding parse_question
parse_question-IsQuestion msg bytes =
    Returns-bind (IsQuestion msg) (λ h. 12 ≤ length msg) (parse_header msg) _ (parse_header_lem msg)
      λ h e long. Returns-guard (IsQuestion msg) (h.questions == 1) _ _ λ single.
        Returns-bind (IsQuestion msg) (IsDecoded msg 12) (decode_name msg 12) _
          (decode_name-IsDecoded msg 12 bytes)
          λ name d p. Returns-guard (IsQuestion msg) (leb 4 (length msg - name.end)) _ _ λ room.
            rw
              (
                u16-word msg name.end (ground arith),
                u16-word msg (name.end + 2) (ground arith),
                slice_lem msg 12 (name.end + 4) (omega (arith, p.forward)) (ground arith),
              )
              (record {
                name = p;
                start = refl;
                end = refl;
                inside = ground arith;
                single = ground arith;
              })

-- What holds of a scanner between two records, in ordinary parsing.
pub record IsScanning (s : Scanner) : Type 0 where
  pub octets : All IsByte s.msg
  pub plain : s.reference ≡ none
  pub inside : s.off ≤ length s.msg
  pub three : length s.counts ≡ 3
  pub low : s.section ≤ 3
  pub cleared : sum (take s.section s.counts) ≡ 0

abbrev pub SectionEnds : List ℕ → ℕ → Type 0
SectionEnds counts n =
    (n ≤ 3)
    × (sum (take n counts) ≡ 0)
    × ((n ≤ 2) × (0 < get_or counts n 0) ⊎ (2 < n) × (sum counts ≡ 0))

abbrev pub Cleared : List ℕ → ℕ → Type 0
Cleared counts n = (n ≤ 3) × (sum (take n counts) ≡ 0)

section_round :
    (counts : List ℕ) (n : ℕ)
    → length counts ≡ 3
    → Cleared counts n
    → Returns
        (Progress (Cleared counts) (λ n. 3 - n) (SectionEnds counts) n)
        (section_step counts n)
unfolding section_step
section_round counts n three i =
    Returns-if _ (leb n additional) _ _
      (λ low. rw (at-byte counts n (ground arith)) (
        Returns-if _ (byte counts n == 0) _ _
          (λ empty. ((ground arith, more_cleared (ground arith)), ground arith))
          (λ full. (i.0, i.1, inl (ground arith, ground arith)))))
      (λ high. (i.0, i.1, inr (ground arith, all_cleared (ground arith))))
  where
    more_cleared : byte counts n ≡ 0 → sum (take (n + 1) counts) ≡ 0
    more_cleared e =
        let q : n + 1 ≡ suc n = omega arith in rw q (omega (arith, sum-take-suc counts n))

    all_cleared : 2 < n → sum counts ≡ 0
    all_cleared e = rw (take_whole n counts (omega arith)) at i.1

pub next_section_lem :
    (counts : List ℕ) (section : ℕ)
    → length counts ≡ 3
    → Cleared counts section
    → Returns (SectionEnds counts) (next_section counts section)
unfolding next_section
next_section_lem counts section three c =
    loop-Returns (Cleared counts) (λ n. 3 - n) (SectionEnds counts) (section_step counts)
      (λ n i. section_round counts n three i) 4 section (omega arith) c

-- A record that lies inside the message from the scanner's offset on.
pub record IsRecord (msg : List ℕ) (off : ℕ) (section : ℕ) (r : ResourceRecord) : Type 0 where
  pub name : IsDecoded msg off r.name
  pub start : r.start ≡ off
  pub begins : r.data_offset ≡ r.name.end + 10
  pub ordered : r.data_offset ≤ r.end
  pub inside : r.end ≤ length msg
  pub rdata : r.rdata ≡ span msg r.data_offset r.end
  pub counted : r.section ≡ section

module _ (s : Scanner) (h : IsScanning s) where
  pub read_record_lem :
      (section : ℕ)
      → Returns
          (λ (p : ResourceRecord × Option Marks). IsRecord s.msg s.off section p.0 × (p.1 ≡ none))
          (read_record s section none)
  unfolding read_record
  read_record_lem section =
      let P =
        λ (p : ResourceRecord × Option Marks). IsRecord s.msg s.off section p.0 × (p.1 ≡ none) in
      rw h.plain (
        Returns-bind P (λ (r : Name × Option Marks). IsDecoded s.msg s.off r.0 × (r.1 ≡ none))
          (decode_checked s.msg none s.off none) _ (decode_checked_lem s.msg s.off h.octets)
          λ n e d.
            let off = n.0.end in
            Returns-guard P (leb 10 (length s.msg - off)) _ _ λ room.
              rw
                (
                  u16-word s.msg off (ground arith),
                  u16-word s.msg (off + 2) (ground arith),
                  u32-word s.msg (off + 4) (ground arith),
                  u16-word s.msg (off + 8) (ground arith),
                )
                (let end = off + 10 + word s.msg (off + 8) in
                  Returns-guard P (leb end (length s.msg)) _ _ λ fits.
                    rw (slice_lem s.msg (off + 10) end (omega arith) (ground arith)) (
                      record {
                        name = d.0;
                        start = refl;
                        begins = refl;
                        ordered = omega arith;
                        inside = ground arith;
                        rdata = refl;
                        counted = refl;
                      },
                      d.1,
                    )))

  read_opt_lem : (r : ResourceRecord) → Returns (λ (e : Edns). e.present ≡ true) (read_opt s r)
  unfolding read_opt
  read_opt_lem r =
      Returns-if _
        (s.edns.present
          || not (r.section == additional)
          || not (length r.name.wire == 1)
          || r.name.compressed)
        _ _ (λ _. tt)
        λ _.
          Returns-bind _ (λ _. Unit {0}) (read_options r.rdata) _ (read_options_lem r.rdata)
            (λ _ _ _. refl)

  pub check_record_lem :
      (section : ℕ) (r : ResourceRecord)
      → IsRecord s.msg s.off section r
      → Returns (λ (p : Edns × Option Marks). p.1 ≡ none) (check_record s r none)
  unfolding check_record
  check_record_lem section r k =
      let P = λ (p : Edns × Option Marks). p.1 ≡ none in
      Returns-if P (r.rtype == 41) _ _
        (λ _.
          Returns-bind P (λ (e : Edns). e.present ≡ true) (read_opt s r) _ (read_opt_lem r)
            (λ _ _ _. refl))
        λ _.
          Returns-if P (not s.multicast || not (r.rtype == 47)) _ _
            (λ _. rw h.plain (
              Returns-bind P (λ names. names ≡ none) (validate_rdata s.msg none r none s.multicast)
                _ (validate_rdata_lem s.msg r s.multicast h.octets k.ordered k.inside)
                (λ _ _ e. e)))
            (λ _. refl)
