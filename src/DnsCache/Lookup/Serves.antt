-- ===== src/DnsCache/Lookup/Serves.antt =====
-- `lookup` on the whole cache.
use dimsum.Prelude.{
  ◌&&◌, ◌+◌, ◌≤◌, ◌<◌, ltb, leb, in_range, Returns-in_range, ℕ, ◌/◌, ◌%◌, ◌≡◌, refl, ◌⊎◌, inl, Bool,
  ◌||◌, not, List, arith, length, set, Result, ok, Returns, Returns-bind, Returns-if,
}
use dimsum.DnsWire.Errors.{WireError}
use dimsum.DnsWire.Message.{Message}
use dimsum.DnsCache.Arena.{ways, Shard, slot_at, bucket}
use dimsum.DnsCache.Key.{Key, is_valid, new_key}
use dimsum.DnsCache.Put.{Cache, shard_at}
use dimsum.DnsCache.Lookup.{CacheResult, miss, word64, same_key, scan_bucket, Served, lookup}
use dimsum.DnsCache.Lookup.Fresh.{IsReadable, Looked, scan_bucket-Looked}
use native.Mathlib.Nat.{mod-lt}

-- The shard of a hash.
abbrev pub home : Cache → ℕ → Shard
home c hash = shard_at c (hash % length c.shards)

abbrev pub CacheLooked :
    Cache → Key → Message → List ℕ → ℕ → ℕ → ℕ → Cache × List ℕ × CacheResult → Type 0
CacheLooked c k request dst now hash max_stale (c', dst', r) =
    Looked (home c hash) (bucket (home c hash) (hash / length c.shards)) k hash request dst now
      max_stale (home c hash, dst', r)

-- Every slot of a bucket is in the table.
bucket_inside : (s : Shard) (h : ℕ) → ways ≤ length s.slots → bucket s h + ways ≤ length s.slots
unfolding bucket
bucket_inside s h enough =
    let n = length s.slots / ways in
    let pos : 0 < n = omega arith in let r : h % n < n = mod-lt h pos in omega (arith, r)

-- `lookup` ends without a panic, whatever the client's buffer. A miss leaves the buffer as it was.
-- A hit comes from a live slot of the key's bucket that holds the hash and the bytes of the asked
-- key. It fits the buffer and has the client's identifier. It is fresh (its age is below its
-- lifetime) or it is marked as stale, is no negative answer, and expired less than `max_stale`
-- seconds ago. Every live slot of the shard is readable: its blob is inside the arena, and has room
-- for its key, its message and its patches, which are behind the message's header. The cache has a
-- shard, and the shard of the hash has slots for a bucket.
pub lookup-CacheLooked :
    (c : Cache) (k : Key) (request : Message) (dst : List ℕ) (now hash max_stale stale_ttl : ℕ)
    → ((j : ℕ)
        → ((slot_at (home c hash) j).allocated ≡ 0)
          ⊎ IsReadable (home c hash) (slot_at (home c hash) j))
    → 0 < length c.shards
    → ways ≤ length (home c hash).slots
    → Returns
        (CacheLooked c k request dst now hash max_stale)
        (lookup c k request dst now hash max_stale stale_ttl)
unfolding lookup
lookup-CacheLooked c k request dst now hash max_stale stale_ttl h some_shard enough =
    let s = home c hash in
    let first = bucket s (hash / length c.shards) in
    let P = CacheLooked c k request dst now hash max_stale in
    let last : Served → Result WireError (Cache × List ℕ × CacheResult) =
      λ r. ok (record c { shards = set c.shards (hash % length c.shards) (r.0) }, r.1, r.2) in
    let refused : Bool =
      not (is_valid k)
      || not (
          same_key (new_key request (word64 k.bytes 0) (word64 k.bytes 8) (word64 k.bytes 16)) k) in
    Returns-if P refused (ok (c, dst, miss)) _ (λ _. inl (refl, refl))
      λ valid.
        Returns-bind P (Looked s first k hash request dst now max_stale)
          (in_range (ltb 0 (length c.shards) && leb ways (length s.slots))
            (scan_bucket ways s first k hash request dst now max_stale stale_ttl))
          last
          (Returns-in_range (Looked s first k hash request dst now max_stale)
            (ltb 0 (length c.shards) && leb ways (length s.slots)) _ (ground arith)
            (scan_bucket-Looked ways s first first k hash request dst now max_stale stale_ttl h
              (omega arith) (omega arith) (bucket_inside s (hash / length c.shards) enough)))
          λ r e w. w
