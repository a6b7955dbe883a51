-- ===== src/DnsWire/Message/Tiles.antt =====
-- What the loop over a scanner's records visits: records that tile the message.
use dimsum.Prelude.{
  ℕ, ◌+◌, ◌≡◌, refl, sym, ap, ◌∙◌, subst, Bool, false, ◌||◌, none, List, [], ◌∷◌, arith, ◌==◌,
  length, All, sum, Result, ok, ◌>>=◌, Returns, Returns-bind, Returns-weaken, Round, loop, Extends,
  loop-history, ok-injective,
}
use dimsum.Prelude.Bytes.{IsByte}
use dimsum.DnsWire.Errors.{WireError}
use dimsum.DnsWire.Record.{ResourceRecord}
use dimsum.DnsWire.Scanner.{Scanner, Next, finished, found, init, next, section_counts}
use dimsum.DnsWire.Scanner.Safety.{IsQuestion, IsScanning, IsRecord}
use dimsum.DnsWire.Scanner.Steps.{left_of, NextPost, next_lem, Started, init_lem}
use dimsum.DnsWire.Message.{
  Message, Visit, visit_found, visit_step, for_records, note_authentication, scan_message,
}

-- `rs` cover the message from `off` to `last`, each record behind the one before it.
abbrev pub Tiles : List ℕ → ℕ → List ResourceRecord → ℕ → Type 0
Tiles msg off [] last = off ≡ last
Tiles msg off (r ∷ rs) last = ((section : ℕ) × IsRecord msg off section r) × Tiles msg r.end rs last

module _ {A : Type 0} (body : A → ResourceRecord → Result WireError A) where
  -- The loop without its scanner: the body over a list of records.
  abbrev pub fold_records : A → List ResourceRecord → Result WireError A
  fold_records acc [] = ok acc
  fold_records acc (r ∷ rs) = body acc r >>= λ acc'. fold_records acc' rs

  -- What the loop owes for the records from its scanner on.
  abbrev pub Visited : List ℕ → Visit A → A × Scanner → Type 0
  Visited msg v (acc, s) =
      (rs : List ResourceRecord) × (length rs ≡ left_of v.scanner)
      × Tiles msg v.scanner.off rs (length msg)
      × (fold_records v.acc rs ≡ ok acc)
      × (s.question ≡ v.scanner.question)

  -- The state of the loop in ordinary parsing.
  record IsVisiting (msg : List ℕ) (v : Visit A) : Type 0 where
    scanning : IsScanning v.scanner
    message : v.scanner.msg ≡ msg
    plain : v.names ≡ none

  module _ (msg : List ℕ)
      (total : (a : A) (r : ResourceRecord) → Returns (λ _. Unit {0}) (body a r)) where
    abbrev Promise : Visit A → Round (Visit A) (A × Scanner) → Type 0
    Promise = Extends (IsVisiting msg) (λ v. left_of v.scanner) (Visited msg)

    found_round :
        (v : Visit A) (n : Next)
        → IsVisiting msg v
        → NextPost v.scanner n
        → Returns (Promise v) (visit_found body v n)
    unfolding visit_found
    found_round v finished h p = ([], sym p.1, p.0 ∙ ap length h.message, refl, refl)
    found_round v (found r s names) h p =
        Returns-bind (Promise v) (λ _. Unit {0}) (body v.acc r) _ (total v.acc r)
          λ a e _. (
            record { scanning = p.0.scanning; message = p.0.message ∙ h.message; plain = p.1 },
            omega (arith, p.0.fewer),
            λ out k. (
              r ∷ k.0,
              omega (arith, p.0.fewer, k.1),
              (
                (
                  p.0.section,
                  subst (λ m. IsRecord m v.scanner.off p.0.section r) h.message p.0.item,
                ),
                subst (λ o. Tiles msg o k.0 (length msg)) p.0.moved k.2,
              ),
              rw e k.3,
              k.4 ∙ p.0.question,
            ),
          )

    visit_round : (v : Visit A) → IsVisiting msg v → Returns (Promise v) (visit_step body v)
    unfolding visit_step visit_found
    visit_round v h = rw h.plain (
        Returns-bind (Promise v) (NextPost v.scanner) (next v.scanner none) _
          (next_lem v.scanner h.scanning) λ n e p. found_round v n h p)

    -- A loop over the records of a started scanner, whose body ends on every record, ends. What it
    -- returns is the fold of its body over a list of records: as many as the header declares, the
    -- first at the end of the question, each behind the one before, the last at the message's end.
    pub for_records_lem :
        (acc : A) (s : Scanner)
        → Started msg s
        → Returns
            (λ (r : A × Scanner).
              (rs : List ResourceRecord) × (length rs ≡ sum (section_counts s.question.header))
              × Tiles msg s.question.end rs (length msg)
              × (fold_records acc rs ≡ ok r.0)
              × (r.1.question ≡ s.question))
            (for_records body acc s none)
    unfolding for_records
    for_records_lem acc s st =
        let v : Visit A = record { acc = acc; scanner = s; names = none } in
        Returns-weaken (Visited msg v) _ (loop (sum s.counts + 1) (visit_step body) v)
          (loop-history (IsVisiting msg) (λ w. left_of w.scanner) (Visited msg) (visit_step body)
            visit_round (sum s.counts + 1) v (omega arith)
            (record { scanning = st.scanning; message = st.message; plain = refl }))
          (λ r k. (
            k.0,
            k.1 ∙ ap sum st.counts,
            subst (λ o. Tiles msg o k.0 (length msg)) st.behind k.2,
            k.3,
            k.4,
          ))

-- Whether one of the records is a TKEY or a TSIG.
abbrev pub carries_authentication : List ResourceRecord → Bool
carries_authentication [] = false
carries_authentication (r ∷ rs) = r.rtype == 249 || r.rtype == 250 || carries_authentication rs

fold-note_authentication :
    (auth : Bool) (rs : List ResourceRecord)
    → fold_records note_authentication auth rs ≡ ok (auth || carries_authentication rs)
unfolding note_authentication
fold-note_authentication auth [] = ground arith
fold-note_authentication auth (r ∷ rs) =
    ground (arith, fold-note_authentication (auth || r.rtype == 249 || r.rtype == 250) rs)

-- A message that `ScanMessage` accepts is one question and the declared records.
pub record IsScanned (msg : List ℕ) (m : Message) : Type 0 where
  pub asked : IsQuestion msg m.question
  pub records : List ResourceRecord
  pub declared : length records ≡ sum (section_counts m.question.header)
  pub tiles : Tiles msg m.question.end records (length msg)
  pub authentication : m.has_authentication ≡ carries_authentication records

-- `ScanMessage` on a message of bytes ends, and never reads out of range. If it accepts, the message
-- is the header, the question and exactly the records that the header declares, one behind the
-- other up to the last byte, and `HasAuthentication` tells whether one of them is TKEY or TSIG.
pub scan_message-IsScanned :
    (msg : List ℕ) → All IsByte msg → Returns (IsScanned msg) (scan_message msg)
unfolding scan_message
scan_message-IsScanned msg bytes =
    Returns-bind (IsScanned msg) (Started msg) (init msg) _ (init_lem msg bytes) λ s e st.
      Returns-bind (IsScanned msg) _ (for_records note_authentication false s none) _
        (for_records_lem note_authentication msg note_total false s st)
        λ r e₁ k. record {
          asked = rw k.4 st.asked;
          records = k.0;
          declared = rw k.4 k.1;
          tiles = rw k.4 k.2;
          authentication = ok-injective (sym k.3 ∙ fold-note_authentication false k.0);
        }
  where
    note_total : (a : Bool) (r : ResourceRecord) → Returns (λ _. Unit {0}) (note_authentication a r)
    note_total a r = unfold note_authentication in tt
