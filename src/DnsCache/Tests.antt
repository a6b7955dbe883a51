-- ===== src/DnsCache/Tests.antt =====
-- Runs of the allocator and of the eviction, and their theorems at concrete shards.
use dimsum.Prelude.{
  ◌+◌, ℕ, ◌≡◌, refl, sym, ap, subst, Bool, true, false, Option, none, some, List, [], ◌∷◌, arith,
  replicate,
}
use dimsum.DnsCache.Arena.{
  Shard, no_slot, slot_at, bucket, scan, find_run, set_range, take_run, allocate, remove,
  evict_loop, evict, age,
}
use dimsum.DnsCache.Arena.Blocks.{Allocated, allocate-Allocated}
use dimsum.DnsCache.Arena.Sound.{IsSound}
use dimsum.DnsCache.Arena.Chance.{evict-live}
use dimsum.DnsCache.Store.{copy_at, fill, make_room, new_shard}
use dimsum.DnsCache.Store.Room.{Stored, new_shard-IsSound, make_room-IsSound}

program : Unit {0}
unfolding bucket scan find_run set_range take_run allocate remove evict_loop evict age copy_at fill
    make_room
program = tt

-- Eight slots over four blocks.
abbrev small : Shard
small = new_shard 8 4

abbrev blob : List ℕ
blob = 1 ∷ 2 ∷ 3 ∷ []

abbrev shard_of : Option (Shard × Bool) → Shard
shard_of (some r) = r.0
shard_of none = small

-- An entry in slot 5, then a second one of two blocks in slot 2.
abbrev one_entry : Shard
one_entry = shard_of (make_room 1 small 5 blob no_slot)

abbrev two_entries : Shard
two_entries = shard_of (make_room 2 one_entry 2 (replicate 300 7) no_slot)

first_place : (slot_at two_entries 5).offset ≡ 0
unfolding program
first_place = refl

second_place : (slot_at two_entries 2).offset ≡ 256
unfolding program
second_place = refl

-- Four blocks do not fit until both entries are gone.
crowded_out :
    (make_room 3 two_entries 0 (replicate 1000 7) no_slot ≡ none → ⊥)
    × ((shard_of (make_room 3 two_entries 0 (replicate 1000 7) no_slot)).evictions ≡ 2)
unfolding program
crowded_out = (λ e. cc, refl)

bucket_of_11 : bucket (new_shard 16 4) 11 ≡ 8
unfolding program
bucket_of_11 = refl

age_backwards : age 3 5 ≡ none
unfolding program
age_backwards = refl

-- Bits two to four are free: the run crosses the cursor, and is found from zero on.
abbrev split_run : Shard
split_run = record small { used = true ∷ false ∷ false ∷ true ∷ []; cursor = 2 }

across_cursor : (allocate split_run 512).1 ≡ some (256, 512)
unfolding program
across_cursor = refl

allocate-Allocated_example :
    Allocated 512 split_run ((allocate split_run 512).0) ((allocate split_run 512).1)
allocate-Allocated_example = allocate-Allocated split_run 512 (omega arith) (omega arith)

one_entry-IsSound : IsSound one_entry
one_entry-IsSound =
    let r =
      make_room-IsSound 1 small 5 blob no_slot (new_shard-IsSound 8 4 (omega arith)) refl
        (omega arith) refl (omega arith) (omega arith) (omega arith) in
    subst IsSound (sym (ap shard_of (r.1))) (r.2)

evict-live_example :
    ((evict one_entry).1 ≡ true)
    × ((evict one_entry).0.entries + 1 ≡ one_entry.entries)
    × IsSound (evict one_entry).0
    × ((i : ℕ)
        → (slot_at one_entry i).allocated ≡ 0
        → (slot_at (evict one_entry).0 i).allocated ≡ 0)
unfolding program
evict-live_example = evict-live one_entry 5 one_entry-IsSound (omega arith)

make_room-IsSound_example :
    (s' : Shard) × (make_room 1 small 5 blob no_slot ≡ some (s', true))
    × IsSound s'
    × Stored s' 5 blob no_slot
make_room-IsSound_example =
    make_room-IsSound 1 small 5 blob no_slot (new_shard-IsSound 8 4 (omega arith)) refl
      (omega arith) refl (omega arith) (omega arith) (omega arith)
