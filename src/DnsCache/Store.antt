-- ===== src/DnsCache/Store.antt =====
-- internal/dnscache/cache.go: the end of `put`, which makes room for a blob and fills a slot.
pub mod Sound
pub mod Room
use dimsum.Prelude.{
  ℕ, zero, suc, ◌+◌, ◌*◌, Bool, true, false, Option, none, some, List, [], ◌∷◌, length, set,
  replicate,
}
use dimsum.DnsCache.Arena.{Slot, Shard, no_slot, block_size, allocate, evict}

-- `copy(arena[i:], blob)`
unfoldable pub copy_at : List ℕ → ℕ → List ℕ → List ℕ
copy_at arena i [] = arena
copy_at arena i (b ∷ blob) = copy_at (set arena i b) (i + 1) blob

-- The slot `x` is written with the place of its blob.
unfoldable pub fill : Shard → ℕ → List ℕ → Slot → ℕ → ℕ → Shard
fill s target blob x offset total = record s {
  arena = copy_at s.arena offset blob;
  slots = set s.slots target (record x { offset = offset; allocated = total });
  entries = s.entries + 1;
}

-- `for { allocate ... evict ... }`, at most one round for each unit of fuel; `none` is a loop that
-- has run out of it. The result is whether the blob was stored.
unfoldable pub make_room : ℕ → Shard → ℕ → List ℕ → Slot → Option (Shard × Bool)
make_room zero s target blob x = none
make_room (suc fuel) s target blob x =
    let a = allocate s (length blob) in
    let e = evict (a.0) in
    elim (a.1) [
      | some (offset, total) ↦ some (fill (a.0) target blob x offset total, true)
      | none ↦ elim (e.1) [ true ↦ make_room fuel (e.0) target blob x | false ↦ some (e.0, false) ]
    ]

-- A shard as `New` makes it, with `slots` slots and `blocks` blocks.
abbrev pub new_shard : ℕ → ℕ → Shard
new_shard slots blocks = record {
  slots = replicate slots no_slot;
  arena = replicate (blocks * block_size) 0;
  used = replicate blocks false;
  hand = 0;
  cursor = 0;
  entries = 0;
  occupied = 0;
  evictions = 0;
}
