-- ===== src/DnsCache/Key.antt =====
-- internal/dnscache/key.go: the keys of cached replies. An array of 288 bytes is a list.
pub mod Distinct
use dimsum.Prelude.{
  ℕ, ◌+◌, ◌-◌, ◌/◌, ◌%◌, ◌^◌, Bool, true, false, ◌&&◌, ◌||◌, not, Option, none, some, List, [], ◌∷◌,
  ◌++◌, ltb, leb, ◌==◌, if◌then◌else◌, length, replicate, Result, ok,
}
use dimsum.Prelude.Bytes.{byte, word, span, bit, bytes_eq}
use dimsum.DnsWire.Errors
use dimsum.DnsWire.Errors.{WireError}
use dimsum.DnsWire.Name.{Name}
use dimsum.DnsWire.Header.{Header, Question, request_error}
use dimsum.DnsWire.Record.{Edns}
use dimsum.DnsWire.Message.{Message}
use dimsum.DnsWire.Template.{bytes16, bytes32}

pub record Key : Type 0 where
  pub bytes : List ℕ
  pub size : ℕ

-- `binary.BigEndian.PutUint64` as bytes.
abbrev pub bytes64 : ℕ → List ℕ
bytes64 v = bytes32 (v / 2 ^ 32 % 2 ^ 32) ++ bytes32 (v % 2 ^ 32)

abbrev pub refused : Result WireError (Unit {0}) → Bool
refused (ok u) = false
refused _ = true

-- FlagCD.
abbrev pub checking_disabled : Header → Bool
checking_disabled h = bit h.flags 4

-- The bits of byte 28.
abbrev pub variant : Message → ℕ
variant m =
    (if m.edns.present then 1 else 0)
    + (if m.edns.dnssec_ok then 2 else 0)
    + (if checking_disabled m.question.header then 4 else 0)

-- The queries that bypass the cache.
unfoldable pub bypasses : Message → Bool
bypasses m =
    let q = m.question in
    refused (request_error q)
    || m.has_authentication
    || length q.name.wire == 0
    || ltb 255 (length q.name.wire)
    || not (q.header.answers == 0)
    || not (q.header.authorities == 0)
    || not (length m.edns.options == 0)
    || not (m.edns.version == 0)
    || not (m.edns.extended_rcode == 0)
    || not (m.edns.flags == 0 || m.edns.flags == 0x8000)
    || not (q.header.additionals == (if m.edns.present then 1 else 0))

-- The bytes of a key in front of the name, and behind it.
abbrev pub key_head : Message → ℕ → ℕ → ℕ → List ℕ
key_head m space generation features =
    bytes64 space
    ++ (bytes64 generation
        ++ (bytes64 features
            ++ (bytes16 m.question.qtype
                ++ (bytes16 m.question.qclass
                    ++ (variant m
                        ∷ (if m.edns.present then bytes16 m.edns.udp_size else 0 ∷ 0 ∷ []))))))

-- `NewKey`; `none` is the result false.
unfoldable pub new_key : Message → ℕ → ℕ → ℕ → Option Key
new_key m space generation features =
    let name = m.question.name.canonical in
    if bypasses m
    then none
    else some (record {
      bytes = key_head m space generation features ++ (name ++ replicate (257 - length name) 0);
      size = 31 + length m.question.name.wire;
    })

-- `valid`
abbrev pub is_valid : Key → Bool
is_valid k = leb 32 k.size && leb k.size 288

abbrev pub key_name : Key → List ℕ
key_name k = span k.bytes 31 k.size

abbrev same_bit : Bool → Bool → Bool
same_bit true b = b
same_bit false b = not b

-- `matches`
unfoldable pub matches_question : Key → Message → Bool
matches_question k m =
    is_valid k
    && word k.bytes 24 == m.question.qtype
    && word k.bytes 26 == m.question.qclass
    && bytes_eq (key_name k) m.question.name.canonical
    && same_bit (bit (byte k.bytes 28) 0) m.edns.present
    && same_bit (bit (byte k.bytes 28) 1) m.edns.dnssec_ok
    && same_bit (bit (byte k.bytes 28) 2) (checking_disabled m.question.header)
