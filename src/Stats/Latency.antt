-- ===== src/Stats/Latency.antt =====
-- internal/stats/latency.go: the histogram of durations.
pub mod Bins
pub mod Ranks
use dimsum.Prelude.{
  ℕ, zero, suc, ◌+◌, ◌-◌, ◌*◌, ◌/◌, ◌%◌, ◌^◌, ◌||◌, Option, none, some, List, [], ◌∷◌, ltb, leb,
  ◌==◌, if◌then◌else◌,
}

-- The number of bins.
abbrev pub bins : ℕ
bins = 464

-- `bits.Len32`: the number of binary digits, at most `width`.
unfoldable pub bit_len : ℕ → ℕ → ℕ
bit_len zero n = 0
bit_len (suc width) n = let rest = bit_len width (n / 2) in if n == 0 then 0 else 1 + rest

-- `LatencyIndex`
unfoldable pub latency_index : ℕ → ℕ
latency_index micros =
    let shift = bit_len 32 micros - 5 in
    if ltb micros 32 then micros else shift * 16 + micros / 2 ^ shift

-- `LatencyBounds`; both bounds are converted to 32 bits.
unfoldable pub latency_bounds : ℕ → ℕ × ℕ
latency_bounds index =
    let shift = (index - 16) / 16 in
    let lower = (16 + (index - 16) % 16) * 2 ^ shift in
    let upper = (17 + (index - 16) % 16) * 2 ^ shift - 1 in
    if ltb index 16 then (index, index) else (lower % 2 ^ 32, upper % 2 ^ 32)

-- `Count`: a sum of 64-bit numbers.
unfoldable pub total : List ℕ → ℕ
total [] = 0
total (n ∷ h) = (n + total h) % 2 ^ 64

-- The loop of `Percentile` from bin `i` on, with `seen` observations before it.
unfoldable pub find_bin : List ℕ → ℕ → ℕ → ℕ → Option ℕ
find_bin [] i seen rank = none
find_bin (n ∷ h) i seen rank =
    let rest = find_bin h (i + 1) ((seen + n) % 2 ^ 64) rank in
    if leb rank ((seen + n) % 2 ^ 64) then some i else rest

unfoldable pub midpoint : ℕ → ℕ
midpoint i = let b = latency_bounds i in (b.0 + (b.1 - b.0) / 2) % 2 ^ 32

unfoldable pub rank_of : ℕ → ℕ → ℕ
rank_of n percent = n / 100 * percent + (n % 100 * percent + 99) / 100

-- `Percentile`; `none` is nil.
unfoldable pub percentile : List ℕ → ℕ → Option ℕ
percentile h percent =
    let n = total h in
    if n == 0 || percent == 0 || ltb 100 percent
    then none
    else elim (find_bin h 0 0 (rank_of n percent)) [ some i ↦ some (midpoint i) | none ↦ none ]
