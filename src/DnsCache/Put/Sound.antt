-- ===== src/DnsCache/Put/Sound.antt =====
-- `put` on its shard always stores what fits.
use dimsum.Prelude.{ℕ, ◌+◌, ◌≤◌, ◌<◌, ◌≡◌, ◌⊎◌, Bool, true, false, List, length, Result, ok}
use dimsum.DnsWire.Errors.{WireError}
use dimsum.DnsWire.Template.{Template}
use dimsum.DnsCache.Arena.{ways, Slot, Shard}
use dimsum.DnsCache.Arena.Sound.{IsSound}
use dimsum.DnsCache.Store.Room.{Stored}
use dimsum.DnsCache.Key.{Key}

-- A blob that fits the arena is stored in a slot of the bucket, and any other is refused.
abbrev pub PutDone : Shard → ℕ → List ℕ → Slot → Result WireError (Shard × Bool) → Type 0
PutDone s first blob x r =
    ((length blob ≤ length s.arena)
      × ((t : Shard) × (i : ℕ) × (r ≡ ok (t, true))
          × IsSound t
          × (first ≤ i)
          × (i < first + ways)
          × Stored t i blob x))
    ⊎ ((length s.arena < length blob) × (r ≡ ok (s, false)))
