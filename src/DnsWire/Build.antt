-- ===== src/DnsWire/Build.antt =====
-- internal/dnswire/build.go: replies that the server makes itself. A buffer is a list of bytes, and
-- a call returns it as it is left behind, with the number of bytes that were used.
pub mod Layout
pub mod Answers
pub mod Fits
use dimsum.Prelude.{
  ℕ, ◌+◌, ◌-◌, ◌*◌, ◌/◌, ◌%◌, ◌^◌, Bool, true, false, ◌&&◌, ◌||◌, not, List, [], ◌∷◌, ltb, leb,
  ◌==◌, if◌then◌else◌, length, set, replicate, Result, ok, err, panic, ◌>>=◌, ◌>>◌, guard,
}
use dimsum.Prelude.Bytes.{bit}
use dimsum.DnsWire.Errors
use dimsum.DnsWire.Errors.{WireError, max_message_len}
use dimsum.DnsWire.Header.{Header, Question, is_response, opcode_of}
use dimsum.DnsWire.Record.{Edns}
use dimsum.DnsWire.Message.{Message, scan_message}

pub record Reply : Type 0 where
  pub rcode : ℕ
  pub null_answer : Bool
  pub ttl : ℕ
  pub recursion_available : Bool
  pub truncated : Bool

-- `serverCap`
abbrev pub server_cap : ℕ → ℕ
server_cap n = if ltb n 512 then 512 else if ltb max_message_len n then max_message_len else n

-- `UDPBudget`
unfoldable pub udp_budget : Edns → ℕ → ℕ
udp_budget e limit =
    if not e.present
    then 512
    else (let n = if ltb e.udp_size 512 then 512 else e.udp_size in
        if ltb (server_cap limit) n then server_cap limit else n)

-- `p[off] = v`
unfoldable pub put8 : List ℕ → ℕ → ℕ → Result WireError (List ℕ)
put8 p off v = if ltb off (length p) then ok (set p off (v % 256)) else panic

-- `put16`
unfoldable pub put16 : List ℕ → ℕ → ℕ → Result WireError (List ℕ)
put16 p off v =
    if leb (off + 2) (length p)
    then ok (set (set p off (v / 256 % 256)) (off + 1) (v % 256))
    else panic

-- `binary.BigEndian.PutUint32(p[off:], v)`
unfoldable pub put32 : List ℕ → ℕ → ℕ → Result WireError (List ℕ)
put32 p off v = do p ← put16 p off (v / 65536 % 65536); put16 p (off + 2) (v % 65536)

-- `copy(p[off:], bytes)`
abbrev pub overwrite : List ℕ → ℕ → List ℕ → List ℕ
overwrite p off [] = p
overwrite p off (b ∷ bytes) = overwrite (set p off b) (off + 1) bytes

-- The size of a null answer's data: A and AAAA.
unfoldable pub null_size : Question → Reply → ℕ
null_size q reply =
    if reply.null_answer && reply.rcode == 0 && not reply.truncated && q.qclass == 1
    then if q.qtype == 1 then 4 else if q.qtype == 28 then 16 else 0
    else 0

-- The flags of a reply; the masks pick disjoint bits: QR, the opcode, TC, RD, RA, CD and RCODE.
abbrev pub reply_flags : ℕ → Reply → ℕ
reply_flags flags reply =
    0x8000
    + opcode_of flags * 2 ^ 11
    + (if reply.truncated then 2 ^ 9 else 0)
    + flags / 2 ^ 8 % 2 * 2 ^ 8
    + (if reply.recursion_available then 2 ^ 7 else 0)
    + flags / 2 ^ 4 % 2 * 2 ^ 4
    + reply.rcode % 16

-- The answer of a null reply at offset `off`.
unfoldable pub put_answer : List ℕ → ℕ → Question → Reply → ℕ → Result WireError (List ℕ)
put_answer p off q reply size = do
  p ← put16 p 6 1
  p ← put16 p off 0xc00c
  p ← put16 p (off + 2) q.qtype
  p ← put16 p (off + 4) 1
  p ← put32 p (off + 6) (reply.ttl % 2 ^ 32)
  put16 p (off + 10) size

-- The OPT record at offset `off`.
unfoldable pub put_opt : List ℕ → ℕ → Edns → Reply → ℕ → Result WireError (List ℕ)
put_opt p off e reply limit = do
  p ← put16 p 10 1
  p ← put16 p (off + 1) 41
  p ← put16 p (off + 3) (server_cap limit)
  p ← put8 p (off + 5) (reply.rcode / 16)
  if e.dnssec_ok then put16 p (off + 7) 0x8000 else ok p

abbrev pub reply_size : Message → Reply → ℕ
reply_size m reply =
    let size = null_size m.question reply in
    16
    + length m.question.name.wire
    + (if ltb 0 size then 12 + size else 0)
    + (if m.edns.present then 11 else 0)

-- The header and the question of a reply.
unfoldable pub put_question : List ℕ → Question → Reply → Result WireError (List ℕ)
put_question p q reply = do
  let end = 16 + length q.name.wire
  p ← put16 p 0 q.header.id
  p ← put16 p 2 (reply_flags q.header.flags reply)
  p ← put16 p 4 1
  let p = overwrite p 12 q.name.wire
  p ← put16 p (end - 4) q.qtype
  put16 p (end - 2) q.qclass

-- `BuildReply`
unfoldable pub build_reply : List ℕ → Message → Reply → ℕ → Result WireError (ℕ × List ℕ)
build_reply dst m reply limit =
    let q = m.question in
    let end = 16 + length q.name.wire in
    let answer = null_size q reply in
    let size = reply_size m reply in
    if ltb (length q.name.wire) 1
      || ltb 255 (length q.name.wire)
      || ltb 4095 reply.rcode
      || (ltb 15 reply.rcode && not m.edns.present)
    then err WireError.bad_record
    else if ltb (length dst) size
    then err WireError.bounds
    else (do
      let p = overwrite dst 0 (replicate size 0)
      p ← put_question p q reply
      p ← if ltb 0 answer then put_answer p end q reply answer else ok p
      p ←
          if m.edns.present
          then put_opt p (if ltb 0 answer then end + (12 + answer) else end) m.edns reply limit
          else ok p
      ok (size, p))

-- `FitReply`
unfoldable pub fit_reply : List ℕ → List ℕ → Message → ℕ → ℕ → Result WireError (ℕ × List ℕ)
fit_reply dst response request budget limit = do
  m ← scan_message response
  guard (is_response m.question.header.flags) WireError.bad_record
  if leb (length response) budget
      then (do
        guard (leb (length response) (length dst)) WireError.bounds
        ok (length response, overwrite dst 0 response))
      else (do
        (n, p) ←
            build_reply dst request
              (record {
                rcode = m.rcode;
                null_answer = false;
                ttl = 0;
                recursion_available = bit m.question.header.flags 7;
                truncated = true;
              })
              limit
        guard (leb n budget) WireError.bounds
        ok (n, p))
