-- ===== src/DnsWire/Rdata/Safety.antt =====
-- `validateRData` in ordinary parsing, on any record data.
use dimsum.Prelude.{
  ℕ, zero, suc, ◌+◌, ◌-◌, ◌≤◌, ◌≡◌, refl, Bool, true, false, ◌&&◌, ◌||◌, not, Option, none, List,
  arith, ltb, leb, ◌==◌, length, All, Returns, Returns-bind, Returns-if, Returns-guard,
  Returns-weaken, loop, Progress, loop-Returns,
}
use dimsum.Prelude.Bytes.{IsByte, byte, word, at-byte, u16-word}
use dimsum.DnsWire.Name.{Name}
use dimsum.DnsWire.Name.Safety.{IsDecoded}
use dimsum.DnsWire.Record.{ResourceRecord, Marks, decode_checked}
use dimsum.DnsWire.Record.Safety.{decode_checked_lem}
use dimsum.DnsWire.Rdata.{
  above, text_step, params_step, bitmap_step, rdata_name, embedded_names, name_fields, text_data,
  service_data, signature_data, denial_data, validate_rdata,
}

module _ (msg : List ℕ) (bytes : All IsByte msg) (end : ℕ) (inside : end ≤ length msg) where
  -- A loop that never passes the end of the record's data.
  abbrev Below : ℕ → Type 0
  Below off = off ≤ end

  abbrev room_left : ℕ × Option ℕ → ℕ
  room_left (off, _) = end - off

  text_round :
      (off : ℕ)
      → off ≤ end
      → Returns (Progress Below (λ i. end - i) (λ _. Unit {0}) off) (text_step msg end off)
  unfolding text_step
  text_round off h =
      Returns-if _ (ltb off end) _ _
        (λ left. rw (at-byte msg off (ground arith)) (
          Returns-guard _ (leb (off + (1 + byte msg off)) end) _ _
            (λ fits. (ground arith, ground arith))))
        (λ _. tt)

  params_round :
      (s : ℕ × Option ℕ)
      → s.0 ≤ end
      → Returns (Progress (λ t. t.0 ≤ end) room_left (λ _. Unit {0}) s) (params_step msg end s)
  unfolding params_step
  params_round (off, last) h =
      Returns-if _ (ltb off end) _ _
        (λ left. Returns-guard _ (leb 4 (end - off)) _ _ (λ four.
          rw (u16-word msg off (ground arith), u16-word msg (off + 2) (ground arith))
            (Returns-guard _ (above last (word msg off) && leb (word msg (off + 2)) (end - off - 4))
              _ _ (λ fits. (ground arith, ground arith)))))
        (λ _. tt)

  bitmap_round :
      (s : ℕ × Option ℕ)
      → s.0 ≤ end
      → Returns (Progress (λ t. t.0 ≤ end) room_left (λ _. Unit {0}) s) (bitmap_step msg end s)
  unfolding bitmap_step
  bitmap_round (off, last) h =
      Returns-if _ (ltb off end) _ _
        (λ left. Returns-guard _ (leb 2 (end - off)) _ _ (λ two.
          rw (at-byte msg off (ground arith), at-byte msg (off + 1) (ground arith))
            (let n = byte msg (off + 1) in
              Returns-guard _
                (above last (byte msg off) && leb 1 n && leb n 32 && leb n (end - off - 2)) _ _
                (λ fits. rw (at-byte msg (off + 1 + n) (ground arith)) (
                  Returns-guard _ (not (byte msg (off + 1 + n) == 0)) _ _
                    (λ final. (ground arith, ground arith)))))))
        (λ _. tt)

  abbrev NameEnds : ℕ → ℕ × Option Marks → Type 0
  NameEnds off r = (off ≤ r.0) × (r.0 ≤ end) × (r.1 ≡ none)

  rdata_name_lem :
      (off : ℕ) (compression : Bool)
      → Returns (NameEnds off) (rdata_name msg none off end compression none)
  unfolding rdata_name
  rdata_name_lem off compression =
      Returns-if _ (leb end off) _ _ (λ _. tt)
        λ _.
          Returns-bind (NameEnds off)
            (λ (r : Name × Option Marks). IsDecoded msg off r.0 × (r.1 ≡ none))
            (decode_checked msg none off none) _ (decode_checked_lem msg off bytes)
            λ r e d.
              Returns-guard (NameEnds off) (leb r.0.end end && (compression || not r.0.compressed))
                _ _ λ fits. (omega (arith, d.0.forward), ground arith, d.1)

  embedded_names_lem :
      (count off : ℕ) (compression : Bool)
      → off ≤ end
      → Returns (NameEnds off) (embedded_names msg none count off end compression none)
  unfolding embedded_names
  embedded_names_lem zero off compression h = (omega arith, h, refl)
  embedded_names_lem (suc count) off compression h =
      Returns-bind (NameEnds off) (NameEnds off) (rdata_name msg none off end compression none) _
        (rdata_name_lem off compression)
        λ r e p. rw p.2 (
          Returns-weaken (NameEnds r.0) (NameEnds off) _
            (embedded_names_lem count r.0 compression p.1) (λ q k. (omega arith, k.1, k.2)))

  abbrev Unmarked : Option Marks → Type 0
  Unmarked names = names ≡ none

  name_fields_lem :
      (count prefix tail : ℕ) (compression : Bool) (off : ℕ)
      → off ≤ end
      → Returns Unmarked (name_fields msg none count prefix tail compression off end none)
  unfolding name_fields
  name_fields_lem count prefix tail compression off h =
      Returns-guard Unmarked (leb prefix (end - off)) _ _ λ fits.
        Returns-bind Unmarked (NameEnds (off + prefix))
          (embedded_names msg none count (off + prefix) end compression none) _
          (embedded_names_lem count (off + prefix) compression (ground arith))
          λ r e p. Returns-guard Unmarked (end - r.0 == tail) _ _ λ _. p.2

  text_data_lem : (off : ℕ) → off ≤ end → Returns Unmarked (text_data msg none off end none)
  unfolding text_data
  text_data_lem off h = Returns-guard Unmarked (not (off == end)) _ _ λ _.
      Returns-bind Unmarked (λ _. Unit {0}) (loop (length msg + 1) (text_step msg end) off) _
        (loop-Returns Below (λ i. end - i) (λ _. Unit {0}) (text_step msg end) text_round
          (length msg + 1) off (omega arith) h)
        (λ _ _ _. refl)

  service_data_lem : (off : ℕ) → off ≤ end → Returns Unmarked (service_data msg none off end none)
  unfolding service_data
  service_data_lem off h = Returns-guard Unmarked (leb 3 (end - off)) _ _ λ fits.
      Returns-bind Unmarked (NameEnds (off + 2)) (rdata_name msg none (off + 2) end false none) _
        (rdata_name_lem (off + 2) false)
        λ r e p.
          Returns-bind Unmarked (λ _. Unit {0})
            (loop (length msg + 1) (params_step msg end) (r.0, none)) _
            (loop-Returns (λ t. t.0 ≤ end) room_left (λ _. Unit {0}) (params_step msg end)
              params_round (length msg + 1) (r.0, none) (omega arith) p.1)
            (λ _ _ _. p.2)

  signature_data_lem :
      (off : ℕ) → off ≤ end → Returns Unmarked (signature_data msg none off end none)
  unfolding signature_data
  signature_data_lem off h = Returns-guard Unmarked (leb 20 (end - off)) _ _ λ fits.
      Returns-bind Unmarked (NameEnds (off + 18)) (rdata_name msg none (off + 18) end false none) _
        (rdata_name_lem (off + 18) false)
        λ r e p. Returns-guard Unmarked (not (r.0 == end)) _ _ λ _. p.2

  denial_data_lem : (off : ℕ) → off ≤ end → Returns Unmarked (denial_data msg none off end none)
  unfolding denial_data
  denial_data_lem off h =
      Returns-bind Unmarked (NameEnds off) (rdata_name msg none off end false none) _
        (rdata_name_lem off false)
        λ r e p. Returns-guard Unmarked (not (r.0 == end)) _ _ λ _.
          Returns-bind Unmarked (λ _. Unit {0})
            (loop (length msg + 1) (bitmap_step msg end) (r.0, none)) _
            (loop-Returns (λ t. t.0 ≤ end) room_left (λ _. Unit {0}) (bitmap_step msg end)
              bitmap_round (length msg + 1) (r.0, none) (omega arith) p.1)
            (λ _ _ _. p.2)

-- `validateRData` in ordinary parsing ends with its verdict on every record whose data lie inside
-- the message: no check of any record type reads out of range or loops without end.
pub validate_rdata_lem :
    (msg : List ℕ) (r : ResourceRecord) (multicast : Bool)
    → All IsByte msg
    → r.data_offset ≤ r.end
    → r.end ≤ length msg
    → Returns (λ names. names ≡ none) (validate_rdata msg none r none multicast)
unfolding validate_rdata
validate_rdata_lem msg r multicast bytes h inside =
    let t = r.rtype in
    let P = Unmarked msg bytes r.end inside in
    Returns-if P (t == 1) _ _ (λ _. Returns-guard P (r.end - r.data_offset == 4) _ _ (λ _. refl))
      λ _.
        Returns-if P (t == 28) _ _
          (λ _. Returns-guard P (r.end - r.data_offset == 16) _ _ (λ _. refl))
          λ _.
            Returns-if P (t == 2 || t == 5 || t == 12) _ _
              (λ _. name_fields_lem msg bytes r.end inside 1 0 0 true r.data_offset h)
              λ _.
                Returns-if P (t == 39) _ _
                  (λ _. name_fields_lem msg bytes r.end inside 1 0 0 multicast r.data_offset h)
                  λ _.
                    Returns-if P (t == 15) _ _
                      (λ _. name_fields_lem msg bytes r.end inside 1 2 0 true r.data_offset h)
                      λ _.
                        Returns-if P (t == 33) _ _
                          (λ _.
                            name_fields_lem msg bytes r.end inside 1 6 0 multicast r.data_offset h)
                          λ _.
                            Returns-if P (t == 6) _ _
                              (λ _.
                                name_fields_lem msg bytes r.end inside 2 0 20 true r.data_offset h)
                              λ _.
                                Returns-if P (t == 16) _ _
                                  (λ _. text_data_lem msg bytes r.end inside r.data_offset h)
                                  λ _.
                                    Returns-if P (t == 64 || t == 65) _ _
                                      (λ _. service_data_lem msg bytes r.end inside r.data_offset h)
                                      λ _.
                                        Returns-if P (t == 46) _ _
                                          (λ _.
                                            signature_data_lem msg bytes r.end inside r.data_offset
                                              h)
                                          λ _.
                                            Returns-if P (t == 47) _ _
                                              (λ _.
                                                denial_data_lem msg bytes r.end inside r.data_offset
                                                  h)
                                              λ _. refl
