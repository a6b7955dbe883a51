-- ===== src/DnsWire/Message/Request.antt =====
-- What `ParseRequest` lets through.
use dimsum.Prelude.{
  ℕ, ◌<◌, ◌≡◌, ◌⊎◌, false, ◌||◌, not, List, arith, ◌==◌, All, Returns, Returns-bind, Returns-if,
  Returns-guard,
}
use dimsum.Prelude.Bytes.{IsByte}
use dimsum.DnsWire.Header.{Question, is_response, opcode_of, request_error, parse_header}
use dimsum.DnsWire.Message.{Message, scan_message, parse_request}
use dimsum.DnsWire.Message.Tiles.{IsScanned, scan_message-IsScanned}
use dimsum.DnsWire.Scanner.Safety.{parse_header_lem}

-- The contract of a client's request.
pub record IsRequest (msg : List ℕ) (m : Message) : Type 0 where
  pub scanned : IsScanned msg m
  pub query : is_response m.question.header.flags ≡ false
  pub standard : opcode_of m.question.header.flags ≡ 0
  pub internet : m.question.qclass ≡ 1
  pub no_transfer : (m.question.qtype < 249) ⊎ (252 < m.question.qtype)
  pub unsigned : m.has_authentication ≡ false
  pub version : m.edns.version ≡ 0
  pub plain_rcode : m.edns.extended_rcode ≡ 0

abbrev Accepted : Question → Type 0
Accepted q =
    (is_response q.header.flags ≡ false)
    × (opcode_of q.header.flags ≡ 0)
    × (q.qclass ≡ 1)
    × ((q.qtype < 249) ⊎ (252 < q.qtype))

request_error_lem : (q : Question) → Returns (λ _. Accepted q) (request_error q)
unfolding request_error
request_error_lem q =
    let f = q.header.flags in
    let P = λ (u : Unit {0}). Accepted q in
    Returns-if P (is_response f) _ _ (λ _. tt)
      λ query.
        Returns-if P (not (opcode_of f == 0)) _ _ (λ _. tt)
          λ standard.
            Returns-if P (not (q.qclass == 1)) _ _ (λ _. tt)
              λ internet.
                Returns-if P (q.qtype == 249 || q.qtype == 250 || q.qtype == 251 || q.qtype == 252)
                  _ _ (λ _. tt) λ plain. (query, ground arith, ground arith, ground arith)

-- `ParseRequest` on a message of bytes ends, and lets through only what the resolver supports: a
-- query, not a response, with opcode 0, class IN and a type that is no transfer, in a message that
-- `ScanMessage` accepts, with no TKEY or TSIG, EDNS version 0 and extended RCODE 0.
pub parse_request-IsRequest :
    (msg : List ℕ) → All IsByte msg → Returns (IsRequest msg) (parse_request msg)
unfolding parse_request
parse_request-IsRequest msg bytes =
    let P = IsRequest msg in
    Returns-bind P _ (parse_header msg) _ (parse_header_lem msg) λ h e _.
      Returns-guard P (not (is_response h.flags)) _ _ λ _.
        Returns-guard P (opcode_of h.flags == 0) _ _ λ _.
          Returns-bind P (IsScanned msg) (scan_message msg) _ (scan_message-IsScanned msg bytes)
            λ m e₁ k.
              Returns-bind P (λ _. Accepted m.question) (request_error m.question) _
                (request_error_lem m.question)
                λ u e₂ a. Returns-guard P (not m.has_authentication) _ _ λ unsigned.
                  Returns-guard P (m.edns.version == 0) _ _ λ version.
                    Returns-guard P (m.edns.extended_rcode == 0) _ _ λ rcode. record {
                      scanned = k;
                      query = a.0;
                      standard = a.1;
                      internet = a.2;
                      no_transfer = a.3;
                      unsigned = ground arith;
                      version = ground arith;
                      plain_rcode = ground arith;
                    }
