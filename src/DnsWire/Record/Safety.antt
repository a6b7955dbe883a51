-- ===== src/DnsWire/Record/Safety.antt =====
-- EDNS options and checked names on any input.
use dimsum.Prelude.{
  ℕ, ◌+◌, ◌-◌, ◌≤◌, ◌≡◌, refl, inl, inr, ◌||◌, Option, none, List, arith, ltb, leb, leb→le,
  Bool-cases, length, All, Returns, Returns-bind, Returns-if, Progress, loop-Returns,
}
use dimsum.Prelude.Bytes.{IsByte, word, slice_lem, u16-word, span, length-span}
use dimsum.DnsWire.Name.{Name, decode_name}
use dimsum.DnsWire.Name.Safety.{IsDecoded, decode_name-IsDecoded}
use dimsum.DnsWire.Record.{
  EdnsOption, Marks, read_option, options_step, read_options, decode_checked,
}

-- `ReadOption` on any option bytes and any offset ends with an error or with an option whose
-- payload is cut from the input, at a next offset that lies at least four bytes further and inside.
pub read_option_lem :
    (options : List ℕ) (off : ℕ)
    → Returns
        (λ (r : EdnsOption × ℕ).
          (r.1 ≡ off + 4 + length r.0.payload)
          × (r.1 ≤ length options)
          × (r.0.payload ≡ span options (off + 4) r.1))
        (read_option options off)
unfolding read_option
read_option_lem options off =
    Returns-if _ (ltb (length options) off || ltb (length options - off) 4) _ _ (λ _. tt)
      λ room. rw (u16-word options (off + 2) (ground arith)) (
        let end = off + 4 + word options (off + 2) in
        elim (Bool-cases (leb end (length options))) [
          | inl fits ↦
              rw
                (
                  fits,
                  u16-word options off (ground arith),
                  slice_lem options (off + 4) end (omega arith) (leb→le end (length options) fits),
                )
                (
                  (ground
                      (arith, length-span options (off + 4) end, leb→le end (length options) fits)),
                  leb→le end (length options) fits,
                  refl,
                )
          | inr out ↦ rw out tt
        ])

-- The check of OPT data ends on every input.
pub read_options_lem : (options : List ℕ) → Returns (λ _. Unit {0}) (read_options options)
unfolding read_options
read_options_lem options =
    loop-Returns (λ off. off ≤ length options) (λ off. length options - off) (λ _. Unit {0})
      (options_step options) (λ off h. round off h) (length options + 1) 0 (omega arith)
      (omega arith)
  where
    round :
        (off : ℕ)
        → off ≤ length options
        → Returns
            (Progress (λ i. i ≤ length options) (λ i. length options - i) (λ _. Unit {0}) off)
            (options_step options off)
    round off h =
        unfold options_step in
        Returns-if _ (ltb off (length options)) _ _
          (λ more_left.
            Returns-bind _ _ (read_option options off) _ (read_option_lem options off)
              (λ r e p. (p.1, ground (arith, p.0))))
          (λ _. tt)

-- A checked name, in ordinary parsing: no reference message and no marks.
pub decode_checked_lem :
    (msg : List ℕ) (off : ℕ)
    → All IsByte msg
    → Returns
        (λ (r : Name × Option Marks). IsDecoded msg off r.0 × (r.1 ≡ none))
        (decode_checked msg none off none)
unfolding decode_checked
decode_checked_lem msg off bytes =
    Returns-bind _ (IsDecoded msg off) (decode_name msg off) _ (decode_name-IsDecoded msg off bytes)
      (λ name e d. (d, refl))
