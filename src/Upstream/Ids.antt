-- ===== src/Upstream/Ids.antt =====
-- internal/upstream/ids.go: the table of transaction identifiers. The clock and `random16` are
-- arguments.
pub mod Fresh
pub mod Exclusive
use dimsum.Prelude.{
  ℕ, zero, suc, ◌+◌, ◌%◌, Bool, true, false, ◌&&◌, not, Option, none, some, List, leb, set, get_or,
  Result, ok, err,
}

abbrev pub id_count : ℕ
id_count = 65_536

pub data IdError : Type 0 where
  random_failed overloaded : IdError

-- `ids`: the end of each identifier's quarantine, and whether it is in use.
pub record Ids : Type 0 where
  pub until : List ℕ
  pub active : List Bool

abbrev pub is_open : Ids → ℕ → ℕ → Bool
is_open p now id = not (get_or p.active id false) && leb (get_or p.until id 0) now

-- The loop of `acquire` over the `rounds` identifiers from `start + i` on.
unfoldable pub search : Ids → ℕ → ℕ → ℕ → ℕ → Option ℕ
search p now start zero i = none
search p now start (suc rounds) i = elim (is_open p now ((start + i) % id_count)) [
  | true ↦ some ((start + i) % id_count)
  | false ↦ search p now start rounds (i + 1)
]

-- `acquire`; `random` is the result of `random16`, `none` if it failed.
unfoldable pub acquire : Ids → ℕ → Option ℕ → Ids × Result IdError ℕ
acquire p now none = (p, err IdError.random_failed)
acquire p now (some start) = elim (search p now start id_count 0) [
  | some id ↦ (record p { active = set p.active id true }, ok id)
  | none ↦ (p, err IdError.overloaded)
]

-- `release`
unfoldable pub release : Ids → ℕ → ℕ → ℕ → Ids
release p now id quarantine = record p {
  until = set p.until id (now + quarantine);
  active = set p.active id false;
}
