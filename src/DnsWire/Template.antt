-- ===== src/DnsWire/Template.antt =====
-- internal/dnswire/ttl.go: the templates of cached replies, `PrepareTemplate`, with
-- `negativeCNAMEAuthority` and `enclosing`.
use dimsum.Prelude.{
  ℕ, zero, suc, ◌+◌, ◌-◌, ◌*◌, ◌/◌, ◌%◌, ◌^◌, min, Bool, true, false, ◌&&◌, ◌||◌, not, Option, none,
  some, List, [], ◌∷◌, ◌++◌, ltb, leb, ◌==◌, if◌then◌else◌, length, drop, Result, ok, err, stuck,
  ◌>>=◌, ◌>>◌, guard,
}
use dimsum.Prelude.Bytes.{u32, byte, bit, bytes_eq}
use dimsum.DnsWire.Errors.{WireError}
use dimsum.DnsWire.Name.{Name, decode_name, contains}
use dimsum.DnsWire.Header.{Question, is_response, opcode_of}
use dimsum.DnsWire.Record.{ResourceRecord, Edns, answer, authority, add_name}
use dimsum.DnsWire.Scanner.{init}
use dimsum.DnsWire.Message.{for_records}

-- `enclosing`: from offset `off` on, at most `fuel` labels.
unfoldable pub enclosing_from : ℕ → List ℕ → List ℕ → ℕ → Bool
enclosing_from zero q zone off = false
enclosing_from (suc fuel) q zone off = elim (ltb off (length q)) [
  | false ↦ false
  | true ↦ elim (bytes_eq (drop off q) zone) [
    | true ↦ true
    | false ↦ enclosing_from fuel q zone (off + (1 + byte q off))
  ]
]

unfoldable pub enclosing : Name → Name → Bool
enclosing q zone = enclosing_from (length q.canonical) q.canonical zone.canonical 0

pub record Template : Type 0 where
  pub lifetime : ℕ
  pub patches : ℕ
  pub negative : Bool

-- The variables of the rescan in `negativeCNAMEAuthority`: `next` with `nextOffset`, and `soa`.
pub record Rescan : Type 0 where
  pub next_name : Option (Name × ℕ)
  pub soa : Bool

unfoldable pub rescan_record : List ℕ → Name → Rescan → ResourceRecord → Result WireError Rescan
rescan_record msg current a r =
    let a' : Rescan = record a {
      soa = a.soa || (r.section == authority && r.rtype == 6 && enclosing current r.name);
    } in
    if not (r.section == answer)
      || not (r.rtype == 5)
      || not (bytes_eq current.canonical r.name.canonical)
    then ok a'
    else (do
      target ← decode_name msg r.data_offset
      elim (a.next_name) [
        | some (n, o) ↦
            if bytes_eq n.canonical target.canonical then ok a' else err WireError.template
        | none ↦ ok (record a' { next_name = some (target, r.start) })
      ])

abbrev max_links : ℕ
max_links = 16

-- The loop over the links; `seen` are the offsets of the links before.
unfoldable pub follow_links : ℕ → List ℕ → Name → List ℕ → Result WireError Bool
follow_links zero msg current seen = stuck
follow_links (suc fuel) msg current seen = do
  s ← init msg
  (a, s') ←
      for_records (rescan_record msg current) (record { next_name = none; soa = false }) s none
  elim (a.next_name) [
    | none ↦ ok a.soa
    | some (n, o) ↦
        if length seen == max_links || contains seen o
        then err WireError.template
        else follow_links fuel msg n (seen ++ (o ∷ []))
  ]

-- `negativeCNAMEAuthority`
unfoldable pub negative_cname_authority : List ℕ → Name → Result WireError Bool
negative_cname_authority msg current = follow_links (max_links + 1) msg current []

-- The variables of the first pass.
pub record Survey : Type 0 where
  pub positive : Bool
  pub soa : Bool
  pub cname : Bool

unfoldable pub survey_record : Question → Survey → ResourceRecord → Result WireError Survey
survey_record q a r =
    if r.rtype == 249 || r.rtype == 250 || (not (r.rtype == 41) && not (r.rclass == 1))
    then err WireError.template
    else ok (record {
      positive = a.positive || (r.section == answer && (r.rtype == q.qtype || q.qtype == 255));
      cname = a.cname || (r.section == answer && r.rtype == 5);
      soa = a.soa || (r.section == authority && r.rtype == 6 && enclosing q.name r.name);
    })

-- `binary.BigEndian.PutUint16` and `PutUint32` as bytes.
abbrev pub bytes16 : ℕ → List ℕ
bytes16 v = v / 256 % 256 ∷ v % 256 ∷ []

abbrev pub bytes32 : ℕ → List ℕ
bytes32 v = v / 16777216 % 256 ∷ v / 65536 % 256 ∷ v / 256 % 256 ∷ v % 256 ∷ []

-- The variables of the second pass; `table` are the patches that were written.
pub record Patching : Type 0 where
  pub lifetime : ℕ
  pub patches : ℕ
  pub table : List ℕ

-- The TTL of a record in the template.
unfoldable pub template_ttl : List ℕ → ℕ → Bool → ResourceRecord → Result WireError ℕ
template_ttl msg max_negative negative r =
    if negative && r.rtype == 6 && r.section == authority
    then (do minimum ← u32 msg (r.end - 4); ok (min (min r.ttl minimum) max_negative))
    else ok r.ttl

-- The body of the second pass with room for `room` bytes of patches.
unfoldable pub patch_record :
    List ℕ → ℕ → ℕ → Bool → Patching → ResourceRecord → Result WireError Patching
patch_record msg room max_negative negative a r = elim (r.ttl_offset) [
  | none ↦ ok a
  | some off ↦ if r.ttl == 0 || ltb 0x7fffffff r.ttl then err WireError.template else (do
    ttl ← template_ttl msg max_negative negative r
    guard (not (ttl == 0)) WireError.template
    guard (leb 8 (room - a.patches * 8)) WireError.bounds
    ok (record {
      lifetime = min a.lifetime ttl;
      patches = a.patches + 1;
      table = a.table ++ (bytes16 (off % 65536) ++ (0 ∷ 0 ∷ bytes32 ttl));
    }))
]

-- The conditions on the question before the first pass: FlagTC is bit 9.
unfoldable pub template_question : Question → Bool
template_question q =
    let flags = q.header.flags in
    not (
      q.name.compressed
      || not (q.qclass == 1)
      || not (is_response flags)
      || (bit flags 9 || not (opcode_of flags == 0))
      || (not (flags % 16 == 0) && not (flags % 16 == 3)))

unfoldable pub template_edns : Edns → Bool
template_edns e =
    e.version == 0
    && e.extended_rcode == 0
    && (e.flags == 0 || e.flags == 0x8000)
    && length e.options == 0

-- `PrepareTemplate` with room for `room` bytes of patches: the template and the patches.
unfoldable pub prepare_template : List ℕ → ℕ → ℕ → Result WireError (Template × List ℕ)
prepare_template msg room max_negative = do
  s ← init msg
  let q = s.question
  let flags = q.header.flags
  guard (template_question q) WireError.template
  marks ← add_name msg 12 []
  (a, s') ←
      for_records (survey_record q) (record { positive = false; soa = false; cname = false }) s
        (some marks)
  guard (template_edns s'.edns) WireError.template
  let negative = flags % 16 == 3 || not a.positive
  soa ← if negative && a.cname then negative_cname_authority msg q.name else ok a.soa
  guard (not (negative && (not soa || max_negative == 0))) WireError.template
  s ← init msg
  (p, s') ←
      for_records (patch_record msg room max_negative negative)
        (record { lifetime = 2 ^ 32 - 1; patches = 0; table = [] }) s none
  guard (not (p.patches == 0)) WireError.template
  ok (record { lifetime = p.lifetime; patches = p.patches; negative = negative }, p.table)
