-- ===== src/Policy/Glob.antt =====
-- internal/policy/match.go: `labelGlob`, the dynamic program that matches one label.
pub mod Meaning
use dimsum.Prelude.{
  ℕ, Bool, true, false, ◌&&◌, ◌||◌, List, [], ◌∷◌, ◌==◌, if◌then◌else◌, length, get_or, replicate,
}

-- A row holds its entries for the prefixes of the label, the empty one first: the part of the
-- 64-entry array that the loops use. This is the inner loop from entry j on: `prev_left` is
-- prev[j-1] and `next_left` is next[j-1].
unfoldable pub glob_row : ℕ → Bool → Bool → List Bool → List ℕ → List Bool
glob_row p prev_left next_left (prev ∷ prevs) (c ∷ label) =
    let cell =
      if p == b'*'
      then prev || next_left
      else if p == b'?'
      then prev_left
      else prev_left && p == c in
    cell ∷ glob_row p prev cell prevs label
glob_row p prev_left next_left _ _ = []

-- One round of the outer loop: the next row.
unfoldable pub glob_next : ℕ → List Bool → List ℕ → List Bool
glob_next p [] label = []
glob_next p (first ∷ prevs) label =
    let start = p == b'*' && first in start ∷ glob_row p first start prevs label

unfoldable pub glob_rows : List ℕ → List Bool → List ℕ → List Bool
glob_rows [] row label = row
glob_rows (p ∷ pattern) row label = glob_rows pattern (glob_next p row label) label

unfoldable pub label_glob : List ℕ → List ℕ → Bool
label_glob pattern label =
    get_or (glob_rows pattern (true ∷ replicate (length label) false) label) (length label) false
