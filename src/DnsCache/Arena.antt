-- ===== src/DnsCache/Arena.antt =====
-- internal/dnscache/slots.go, arena.go and clock.go: a shard's slots, the block allocator of its
-- arena and the CLOCK eviction.
pub mod Scan
pub mod Blocks
pub mod Sound
pub mod Clock
pub mod Chance
use dimsum.Prelude.{
  ℕ, zero, suc, ◌+◌, ◌-◌, ◌*◌, ◌/◌, ◌%◌, Bool, true, false, Option, none, some, List, ltb, ◌==◌,
  if◌then◌else◌, length, set, get_or,
}

abbrev pub ways : ℕ
ways = 8

abbrev pub block_size : ℕ
block_size = 256

-- The two flag bits are fields.
pub record Slot : Type 0 where
  pub hash : ℕ
  pub inserted : ℕ
  pub offset : ℕ
  pub allocated : ℕ
  pub lifetime : ℕ
  pub key_len : ℕ
  pub message_len : ℕ
  pub patches : ℕ
  pub referenced : Bool
  pub negative : Bool

abbrev pub no_slot : Slot
no_slot = record {
  hash = 0;
  inserted = 0;
  offset = 0;
  allocated = 0;
  lifetime = 0;
  key_len = 0;
  message_len = 0;
  patches = 0;
  referenced = false;
  negative = false;
}

-- `used` holds one bit for each block of the arena.
pub record Shard : Type 0 where
  pub slots : List Slot
  pub arena : List ℕ
  pub used : List Bool
  pub hand : ℕ
  pub cursor : ℕ
  pub entries : ℕ
  pub occupied : ℕ
  pub evictions : ℕ

-- `bucket`: the first slot of a hash's bucket.
unfoldable pub bucket : Shard → ℕ → ℕ
bucket s hash = hash % (length s.slots / ways) * ways

-- The inner loop of `allocate` over `rounds` blocks from `i` on, with `run` free blocks behind it:
-- the last block of the first run of `need` free blocks.
unfoldable pub scan : List Bool → ℕ → ℕ → ℕ → ℕ → Option ℕ
scan used need zero i run = none
scan used need (suc rounds) i run = elim (get_or used i false) [
  | true ↦ scan used need rounds (i + 1) 0
  | false ↦ elim (run + 1 == need) [
    | true ↦ some i
    | false ↦ scan used need rounds (i + 1) (run + 1)
  ]
]

-- The two passes: from the cursor to the end, then from zero to the cursor.
unfoldable pub find_run : List Bool → ℕ → ℕ → Option ℕ
find_run used need cursor =
    let second = scan used need cursor 0 0 in
    elim (scan used need (length used - cursor) cursor 0) [ some i ↦ some i | none ↦ second ]

-- `for j := first; j < first+count; j++` over the bits.
unfoldable pub set_range : List Bool → ℕ → ℕ → Bool → List Bool
set_range used first zero v = used
set_range used first (suc count) v = set_range (set used first v) (first + 1) count v

-- The run that ends in block `i` is taken: its offset and size in bytes.
unfoldable pub take_run : Shard → ℕ → ℕ → Shard × Option (ℕ × ℕ)
take_run s need i =
    let first = i + 1 - need in
    (
      record s {
        used = set_range s.used first need true;
        cursor = (i + 1) % length s.used;
        occupied = s.occupied + need * block_size;
      },
      some (first * block_size, need * block_size),
    )

abbrev pub blocks_for : ℕ → ℕ
blocks_for size = (size + block_size - 1) / block_size

-- `allocate`; `none` is the result (0, 0, false).
unfoldable pub allocate : Shard → ℕ → Shard × Option (ℕ × ℕ)
allocate s size =
    let need = blocks_for size in
    elim (find_run s.used need s.cursor) [
      | some i ↦ take_run s need i
      | none ↦ if s.cursor == 0 then (s, none) else elim (find_run s.used need 0) [
        | some i ↦ take_run (record s { cursor = 0 }) need i
        | none ↦ (record s { cursor = 0 }, none)
      ]
    ]

abbrev pub slot_at : Shard → ℕ → Slot
slot_at s i = get_or s.slots i no_slot

-- `remove`
unfoldable pub remove : Shard → ℕ → Shard
remove s i =
    let x = slot_at s i in
    if x.allocated == 0 then s else record s {
      slots = set s.slots i no_slot;
      used = set_range s.used (x.offset / block_size) (x.allocated / block_size) false;
      entries = s.entries - 1;
      occupied = s.occupied - x.allocated;
    }

-- The loop of `evict` with the scans that are left: whether an entry was removed.
unfoldable pub evict_loop : ℕ → Shard → Shard × Bool
evict_loop zero s = (s, false)
evict_loop (suc scans) s =
    let i = s.hand in
    let x = slot_at s i in
    let s' : Shard = record s { hand = (s.hand + 1) % length s.slots } in
    elim (x.allocated == 0) [
      | true ↦ evict_loop scans s'
      | false ↦ elim x.referenced [
        | true ↦
            evict_loop scans (record s' { slots = set s.slots i (record x { referenced = false }) })
        | false ↦ let r = remove s' i in (record r { evictions = r.evictions + 1 }, true)
      ]
    ]

unfoldable pub evict : Shard → Shard × Bool
evict s = evict_loop (2 * length s.slots) s

-- `age`, in whole seconds; `none` is an entry from the future.
unfoldable pub age : ℕ → ℕ → Option ℕ
age now inserted = if ltb now inserted then none else some ((now - inserted) / 1_000_000_000)
