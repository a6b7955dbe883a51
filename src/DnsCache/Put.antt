-- ===== src/DnsCache/Put.antt =====
-- internal/dnscache/cache.go: `put`. A slice of the arena is taken by `span`: the blobs of the slots
-- are inside the arena.
pub mod Target
pub mod Sound
use dimsum.Prelude.{
  ℕ, zero, suc, ◌+◌, ◌*◌, ◌/◌, ◌%◌, Bool, true, false, ◌&&◌, ◌||◌, not, Option, none, some, List,
  [], ◌++◌, ltb, ◌==◌, if◌then◌else◌, length, set, get_or, take, Result, ok, err, panic, stuck,
  ◌>>=◌, ◌>>◌,
}
use dimsum.Prelude.Bytes.{span, bytes_eq}
use dimsum.DnsWire.Errors
use dimsum.DnsWire.Errors.{WireError}
use dimsum.DnsWire.Message.{Message, scan_message}
use dimsum.DnsWire.Template.{Template, prepare_template}
use dimsum.DnsCache.Arena.{ways, Slot, Shard, slot_at, no_slot, bucket, remove}
use dimsum.DnsCache.Store.{make_room}
use dimsum.DnsCache.Key.{Key, is_valid, matches_question}

abbrev pub max_message : ℕ
max_message = 16_384

pub record Cache : Type 0 where
  pub shards : List Shard
  pub max_negative : ℕ

abbrev pub no_shard : Shard
no_shard = record {
  slots = [];
  arena = [];
  used = [];
  hand = 0;
  cursor = 0;
  entries = 0;
  occupied = 0;
  evictions = 0;
}

abbrev pub shard_at : Cache → ℕ → Shard
shard_at c i = get_or c.shards i no_shard

-- The bytes of the key that a slot holds.
abbrev pub stored_key : Shard → Slot → List ℕ
stored_key s x = span s.arena x.offset (x.offset + x.key_len)

-- The slot holds an entry for the key.
unfoldable pub holds_key : Shard → Slot → Key → ℕ → Bool
holds_key s x k hash =
    not (x.allocated == 0)
    && x.hash == hash
    && x.key_len == k.size
    && bytes_eq (stored_key s x) (take k.size k.bytes)

-- The first loop of `put` over the `rounds` slots from `i` on: an entry for the key is removed, and
-- otherwise the last empty slot is the target.
unfoldable pub find_target : ℕ → Shard → ℕ → Key → ℕ → Option ℕ → Shard × Option ℕ
find_target zero s i k hash target = (s, target)
find_target (suc rounds) s i k hash target = elim ((slot_at s i).allocated == 0) [
  | true ↦ find_target rounds s (i + 1) k hash (some i)
  | false ↦ elim (holds_key s (slot_at s i) k hash) [
    | true ↦ (remove s i, some i)
    | false ↦ find_target rounds s (i + 1) k hash target
  ]
]

-- The second chance within the bucket, for the `rounds` that are left.
unfoldable pub clear_way : ℕ → Shard → ℕ → Shard × Option ℕ
clear_way zero s first = (s, none)
clear_way (suc rounds) s first =
    let i = first + s.hand % ways in
    let s' : Shard = record s { hand = (s.hand + 1) % length s.slots } in
    let x = slot_at s i in
    elim x.referenced [
      | true ↦
          clear_way rounds (record s' { slots = set s.slots i (record x { referenced = false }) })
            first
      | false ↦ let r = remove s' i in (record r { evictions = r.evictions + 1 }, some i)
    ]

unfoldable pub choose_target : Shard → ℕ → Key → ℕ → Shard × Option ℕ
choose_target s first k hash =
    let found = find_target ways s first k hash none in
    elim (found.1) [ some i ↦ found | none ↦ clear_way (2 * ways) (found.0) first ]

-- The slot of a template, before its blob has a place.
abbrev pub new_entry : Key → ℕ → ℕ → ℕ → Template → Slot
new_entry k hash now size info = record {
  hash = hash;
  inserted = now;
  offset = 0;
  allocated = 0;
  lifetime = info.lifetime;
  key_len = k.size;
  message_len = size;
  patches = info.patches;
  referenced = true;
  negative = info.negative;
}

-- What a slot stores: the key, the response and its patches.
abbrev pub put_blob : Key → List ℕ → List ℕ → List ℕ
put_blob k response table = take k.size k.bytes ++ (response ++ table)

-- `put` on its shard; index -1 is written where there is no target, and panics.
unfoldable pub put_shard :
    Shard → ℕ → Key → List ℕ → Template → List ℕ → ℕ → ℕ → Result WireError (Shard × Bool)
put_shard s first k response info table now hash =
    let blob = put_blob k response table in
    if ltb (length s.arena) (length blob)
    then ok (s, false)
    else (let chosen = choose_target s first k hash in
        elim (chosen.1) [
          | none ↦ panic
          | some target ↦
              elim (make_room ((chosen.0).entries + 1) (chosen.0) target blob
                (new_entry k hash now (length response) info)) [ some r ↦ ok r | none ↦ stuck ]
        ])

-- An error of a callee is a refusal.
abbrev pub attempt {ℓ} : {A : Type ℓ} → Result WireError A → Result WireError (Option A)
attempt (ok a) = ok (some a)
attempt (err e) = ok none
attempt panic = panic
attempt stuck = stuck

-- The room for patches in `put`.
abbrev pub table_room : ℕ
table_room = max_message / 11 * 8

unfoldable pub put : Cache → Key → List ℕ → ℕ → ℕ → Result WireError (Cache × Bool)
put c k response now hash =
    let n = length c.shards in
    let s = shard_at c (hash % n) in
    if not (is_valid k) || ltb max_message (length response) then ok (c, false) else (do
      scanned ← attempt (scan_message response)
      elim scanned [
        | none ↦ ok (c, false)
        | some m ↦ if not (matches_question k m) then ok (c, false) else (do
          prepared ← attempt (prepare_template response table_room c.max_negative)
          elim prepared [
            | none ↦ ok (c, false)
            | some (info, table) ↦ do
              (s', stored) ← put_shard s (bucket s (hash / n)) k response info table now hash
              ok (record c { shards = set c.shards (hash % n) s' }, stored)
          ])
      ])
