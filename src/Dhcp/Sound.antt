-- ===== src/Dhcp/Sound.antt =====
-- The invariant of the lease engine: of the two maps, the heap and the bitmap, and that the moves of
-- which its operations consist keep it.
pub mod Entries
pub mod Marks
pub mod Moves
pub mod Fresh
pub mod Saved
pub mod Fine
pub mod Handling
pub mod Completing
pub mod Committing
pub mod Ticking
pub mod Installing
pub mod Applying
pub mod Restoring
pub mod Events
use dimsum.Prelude.{List, some, ℕ, ◌<◌, ◌≡◌}
use dimsum.Prelude.Bytes.{bytes_key}
use dimsum.Prelude.Maps.{IsMap, find}
use dimsum.Dhcp.Address.{Addr, addr_key}
use dimsum.Dhcp.Lease.{Engine}
use dimsum.Dhcp.Engine.{identity}
use dimsum.Dhcp.Sound.Entries.{IsEntry}
use dimsum.Dhcp.Sound.Marks.{IsMarked}

-- An owned address leads to an entry for it, a name to an owned entry of that name, and the bit of
-- every owned address of the pool is set.
pub record IsSound (e : Engine) : Type 0 where
  pub live : (a : Addr) (p : ℕ) → find a e.by_ip ≡ some p → p < e.fresh
  pub placed : (a : Addr) (p : ℕ) → find a e.by_ip ≡ some p → (e.heap p).lease.address ≡ a
  pub good : (a : Addr) (p : ℕ) → find a e.by_ip ≡ some p → IsEntry (e.heap p)
  pub named :
      (id : List ℕ) (p : ℕ)
      → find id e.by_id ≡ some p
      → ((e.heap p).lease.identity ≡ id) × (find (e.heap p).lease.address e.by_ip ≡ some p)
  pub distinct : IsMap e.by_ip
  pub marked : IsMarked e.by_ip e.bitmap e.start e.end
