-- ===== src/DnsCache/Lookup.antt =====
-- internal/dnscache/cache.go: `lookup`.
pub mod Fresh
pub mod Serves
use dimsum.Prelude.{
  ℕ, zero, suc, ◌+◌, ◌-◌, ◌*◌, ◌/◌, ◌%◌, ◌^◌, Bool, true, false, ◌&&◌, ◌||◌, not, Option, none,
  some, List, ltb, leb, ◌==◌, if◌then◌else◌, length, set, take, Result, ok, in_range, ◌>>=◌, ◌>>◌,
}
use dimsum.Prelude.Bytes.{slice, u16, u32, word, bytes_eq}
use dimsum.DnsWire.Errors
use dimsum.DnsWire.Errors.{WireError}
use dimsum.DnsWire.Name.{Name}
use dimsum.DnsWire.Header.{Header, Question}
use dimsum.DnsWire.Message.{Message}
use dimsum.DnsWire.Build.{put16, put32, overwrite}
use dimsum.DnsCache.Arena.{ways, Slot, Shard, slot_at, bucket, remove, age}
use dimsum.DnsCache.Key.{Key, is_valid, new_key}
use dimsum.DnsCache.Put.{Cache, shard_at}

pub record CacheResult : Type 0 where
  pub hit : Bool
  pub negative : Bool
  pub stale : Bool
  pub stale_age : ℕ
  pub size : ℕ

abbrev pub miss : CacheResult
miss = record { hit = false; negative = false; stale = false; stale_age = 0; size = 0 }

-- The flags of the cached reply with the client's RD and CD, and without AD.
abbrev pub client_flags : ℕ → ℕ → ℕ
client_flags cached asked =
    cached / 2 ^ 9 * 2 ^ 9
    + asked / 2 ^ 8 % 2 * 2 ^ 8
    + cached / 2 ^ 6 % 4 * 2 ^ 6
    + asked / 2 ^ 4 % 2 * 2 ^ 4
    + cached % 2 ^ 4

-- The TTL of a record after `elapsed` seconds.
abbrev pub ttl_left : ℕ → ℕ → Bool → ℕ → ℕ
ttl_left elapsed ttl stale stale_ttl =
    if stale then stale_ttl else if ltb elapsed ttl then ttl - elapsed else 0

-- The loop over the patches from number `j` on.
unfoldable pub patch_ttls : ℕ → List ℕ → List ℕ → ℕ → ℕ → Bool → ℕ → Result WireError (List ℕ)
patch_ttls zero dst table j elapsed stale stale_ttl = ok dst
patch_ttls (suc rounds) dst table j elapsed stale stale_ttl = do
  off ← u16 table (j * 8)
  ttl ← u32 table (j * 8 + 4)
  dst ← put32 dst off (ttl_left elapsed ttl stale stale_ttl)
  patch_ttls rounds dst table (j + 1) elapsed stale stale_ttl

-- The reply for the client, in `dst`.
unfoldable pub write_reply :
    List ℕ → Message → List ℕ → Slot → ℕ → Bool → ℕ → Result WireError (List ℕ)
write_reply dst request blob x elapsed stale stale_ttl = do
  message ← slice blob x.key_len (x.key_len + x.message_len)
  dst ← put16 (overwrite dst 0 message) 0 request.question.header.id
  flags ← u16 dst 2
  dst ← put16 dst 2 (client_flags flags request.question.header.flags)
  dst ← in_range (leb 12 (length dst)) (ok (overwrite dst 12 request.question.name.wire))
  table ← slice blob (x.key_len + x.message_len) (length blob)
  patch_ttls x.patches dst table 0 elapsed stale stale_ttl

abbrev pub Served : Type 0
Served = Shard × List ℕ × CacheResult

-- The end of `lookup` for slot `i`, whose blob is for the key, after `elapsed` seconds.
unfoldable pub serve_aged :
    Shard → ℕ → Message → List ℕ → List ℕ → ℕ → ℕ → ℕ → Result WireError Served
serve_aged s i request dst blob elapsed max_stale stale_ttl =
    let x = slot_at s i in
    let stale = leb x.lifetime elapsed in
    let stale_age = if stale then elapsed - x.lifetime else 0 in
    if stale && (x.negative || leb max_stale stale_age)
    then ok (remove s i, dst, miss)
    else if ltb (length dst) x.message_len
    then ok (s, dst, miss)
    else (do
      dst ← write_reply dst request blob x elapsed stale stale_ttl
      ok (
        record s { slots = set s.slots i (record x { referenced = true }) },
        dst,
        record {
          hit = true;
          negative = x.negative;
          stale = stale;
          stale_age = stale_age;
          size = x.message_len;
        },
      ))

unfoldable pub serve : Shard → ℕ → Message → List ℕ → List ℕ → ℕ → ℕ → ℕ → Result WireError Served
serve s i request dst blob now max_stale stale_ttl = elim (age now (slot_at s i).inserted) [
  | none ↦ ok (s, dst, miss)
  | some elapsed ↦ serve_aged s i request dst blob elapsed max_stale stale_ttl
]

-- The loop over the `rounds` slots from `i` on; a slot out of range panics.
unfoldable pub scan_bucket :
    ℕ → Shard → ℕ → Key → ℕ → Message → List ℕ → ℕ → ℕ → ℕ → Result WireError Served
scan_bucket zero s i k hash request dst now max_stale stale_ttl = ok (s, dst, miss)
scan_bucket (suc rounds) s i k hash request dst now max_stale stale_ttl =
    let x = slot_at s i in
    in_range (ltb i (length s.slots))
      (elim (x.allocated == 0 || not (x.hash == hash) || not (x.key_len == k.size)) [
        | true ↦ scan_bucket rounds s (i + 1) k hash request dst now max_stale stale_ttl
        | false ↦ do
          blob ← slice s.arena x.offset (x.offset + x.allocated)
          own ← slice blob 0 x.key_len
          elim (bytes_eq own (take k.size k.bytes)) [
            | false ↦ scan_bucket rounds s (i + 1) k hash request dst now max_stale stale_ttl
            | true ↦ serve s i request dst blob now max_stale stale_ttl
          ]
      ])

-- The eight bytes of a key at `off`.
abbrev pub word64 : List ℕ → ℕ → ℕ
word64 p off =
    (word p off * 2 ^ 16 + word p (off + 2)) * 2 ^ 32
    + (word p (off + 4) * 2 ^ 16 + word p (off + 6))

-- `want == k`
unfoldable pub same_key : Option Key → Key → Bool
same_key none k = false
same_key (some want) k = want.size == k.size && bytes_eq want.bytes k.bytes

-- `lookup`; it panics without shards, and in a shard of no bucket, for the remainder by zero.
unfoldable pub lookup :
    Cache → Key → Message → List ℕ → ℕ → ℕ → ℕ → ℕ → Result WireError (Cache × List ℕ × CacheResult)
lookup c k request dst now hash max_stale stale_ttl =
    let n = length c.shards in
    let s = shard_at c (hash % n) in
    if not (is_valid k)
      || not
          (same_key (new_key request (word64 k.bytes 0) (word64 k.bytes 8) (word64 k.bytes 16)) k)
    then ok (c, dst, miss)
    else (do
      (s', dst', r) ←
          in_range (ltb 0 n && leb ways (length s.slots))
            (scan_bucket ways s (bucket s (hash / n)) k hash request dst now max_stale stale_ttl)
      ok (record c { shards = set c.shards (hash % n) s' }, dst', r))
