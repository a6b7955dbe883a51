-- ===== src/DnsWire/Rdata.antt =====
-- internal/dnswire/records.go: `rdataName` and `validateRData`.
pub mod Safety
use dimsum.Prelude.{
  ℕ, zero, suc, ◌+◌, ◌-◌, Bool, true, false, ◌&&◌, ◌||◌, not, Option, none, some, List, ltb, leb,
  ◌==◌, if◌then◌else◌, length, Result, ok, err, ◌>>=◌, ◌>>◌, guard, Round, done, more, loop,
}
use dimsum.Prelude.Bytes.{at, u16}
use dimsum.DnsWire.Errors
use dimsum.DnsWire.Errors.{WireError}
use dimsum.DnsWire.Record.{ResourceRecord, Marks, decode_checked}

-- `last < 0 || last < key`, where `none` is -1.
abbrev pub above : Option ℕ → ℕ → Bool
above none key = true
above (some last) key = ltb last key

-- The loop over the strings of a TXT record.
unfoldable pub text_step : List ℕ → ℕ → ℕ → Result WireError (Round ℕ (Unit {0}))
text_step msg end off =
    if ltb off end
    then (do
      n ← at msg off
      guard (leb (off + (1 + n)) end) WireError.bad_record
      ok (more (off + (1 + n))))
    else ok (done tt)

-- The loop over the parameters of SVCB and HTTPS.
unfoldable pub params_step :
    List ℕ → ℕ → ℕ × Option ℕ → Result WireError (Round (ℕ × Option ℕ) (Unit {0}))
params_step msg end (next, last) =
    if ltb next end
    then (do
      guard (leb 4 (end - next)) WireError.bad_record
      key ← u16 msg next
      n ← u16 msg (next + 2)
      guard (above last key && leb n (end - next - 4)) WireError.bad_record
      ok (more (next + (4 + n), some key)))
    else ok (done tt)

-- The loop over the type bitmaps of NSEC.
unfoldable pub bitmap_step :
    List ℕ → ℕ → ℕ × Option ℕ → Result WireError (Round (ℕ × Option ℕ) (Unit {0}))
bitmap_step msg end (next, last) =
    if ltb next end
    then (do
      guard (leb 2 (end - next)) WireError.bad_record
      window ← at msg next
      n ← at msg (next + 1)
      guard (above last window && leb 1 n && leb n 32 && leb n (end - next - 2))
          WireError.bad_record
      final ← at msg (next + 1 + n)
      guard (not (final == 0)) WireError.bad_record
      ok (more (next + (2 + n), some window)))
    else ok (done tt)

module _ (msg : List ℕ) (reference : Option (List ℕ)) where
  -- The end of the name at `off`, with the marks.
  unfoldable pub rdata_name : ℕ → ℕ → Bool → Option Marks → Result WireError (ℕ × Option Marks)
  rdata_name off end compression names = if leb end off then err WireError.bad_record else (do
    (n, names') ← decode_checked msg reference off names
    guard (leb n.end end && (compression || not n.compressed)) WireError.bad_record
    ok (n.end, names'))

  -- `for i := 0; i < nameCount; i++`
  unfoldable pub embedded_names :
      ℕ → ℕ → ℕ → Bool → Option Marks → Result WireError (ℕ × Option Marks)
  embedded_names zero off end compression names = ok (off, names)
  embedded_names (suc count) off end compression names = do
    (next, names') ← rdata_name off end compression names
    embedded_names count next end compression names'

  -- What follows the switch: a prefix, names, and a tail of a fixed size.
  unfoldable pub name_fields :
      ℕ → ℕ → ℕ → Bool → ℕ → ℕ → Option Marks → Result WireError (Option Marks)
  name_fields count prefix tail compression off end names = do
    guard (leb prefix (end - off)) WireError.bad_record
    (next, names') ← embedded_names count (off + prefix) end compression names
    guard (end - next == tail) WireError.bad_record
    ok names'

  unfoldable pub text_data : ℕ → ℕ → Option Marks → Result WireError (Option Marks)
  text_data off end names = do
    guard (not (off == end)) WireError.bad_record
    u ← loop (length msg + 1) (text_step msg end) off
    ok names

  unfoldable pub service_data : ℕ → ℕ → Option Marks → Result WireError (Option Marks)
  service_data off end names = do
    guard (leb 3 (end - off)) WireError.bad_record
    (next, names') ← rdata_name (off + 2) end false names
    u ← loop (length msg + 1) (params_step msg end) (next, none)
    ok names'

  unfoldable pub signature_data : ℕ → ℕ → Option Marks → Result WireError (Option Marks)
  signature_data off end names = do
    guard (leb 20 (end - off)) WireError.bad_record
    (next, names') ← rdata_name (off + 18) end false names
    guard (not (next == end)) WireError.bad_record
    ok names'

  unfoldable pub denial_data : ℕ → ℕ → Option Marks → Result WireError (Option Marks)
  denial_data off end names = do
    (next, names') ← rdata_name off end false names
    guard (not (next == end)) WireError.bad_record
    u ← loop (length msg + 1) (bitmap_step msg end) (next, none)
    ok names'

  -- `validateRData`
  unfoldable pub validate_rdata :
      ResourceRecord → Option Marks → Bool → Result WireError (Option Marks)
  validate_rdata r names multicast =
      let off = r.data_offset in
      let end = r.end in
      let t = r.rtype in
      if t == 1
      then (do guard (end - off == 4) WireError.bad_record; ok names)
      else if t == 28
      then (do guard (end - off == 16) WireError.bad_record; ok names)
      else if t == 2 || t == 5 || t == 12
      then name_fields 1 0 0 true off end names
      else if t == 39
      then name_fields 1 0 0 multicast off end names
      else if t == 15
      then name_fields 1 2 0 true off end names
      else if t == 33
      then name_fields 1 6 0 multicast off end names
      else if t == 6
      then name_fields 2 0 20 true off end names
      else if t == 16
      then text_data off end names
      else if t == 64 || t == 65
      then service_data off end names
      else if t == 46
      then signature_data off end names
      else if t == 47
      then denial_data off end names
      else ok names
