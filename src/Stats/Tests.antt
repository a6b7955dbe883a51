-- ===== src/Stats/Tests.antt =====
-- Runs of the histogram, and its theorems at concrete durations.
use dimsum.Prelude.{ℕ, ◌-◌, ◌^◌, ◌≡◌, refl, none, some, List, [], ◌∷◌, arith, replicate}
use dimsum.Stats.Latency.{
  bit_len, latency_index, latency_bounds, total, find_bin, midpoint, rank_of, percentile,
}
use dimsum.Stats.Latency.Bins.{Binned, latency_index-Binned}
use dimsum.Stats.Latency.Ranks.{Ranked, IsRank, middle, percentile-Ranked}

program : Unit {0}
unfolding bit_len latency_index latency_bounds total find_bin midpoint rank_of percentile
program = tt

index_of_1000 : latency_index 1000 ≡ 111
unfolding program
index_of_1000 = refl

bounds_of_111 : latency_bounds 111 ≡ (992, 1023)
unfolding program
bounds_of_111 = refl

last_bin : latency_index (2 ^ 32 - 1) ≡ 463
unfolding program
last_bin = refl

last_bounds : (latency_bounds 463).1 ≡ 2 ^ 32 - 1
unfolding program
last_bounds = refl

-- Ten observations in the bins 1, 2 and 4.
abbrev histogram : List ℕ
histogram = 0 ∷ 5 ∷ 4 ∷ 0 ∷ 1 ∷ replicate 459 0

median : percentile histogram 50 ≡ some 1
unfolding program
median = refl

upper_tail : percentile histogram 95 ≡ some 4
unfolding program
upper_tail = refl

nothing_seen : percentile (0 ∷ 0 ∷ []) 50 ≡ none
unfolding program
nothing_seen = refl

latency_index-Binned_example : Binned 1000 (latency_index 1000)
latency_index-Binned_example = latency_index-Binned 1000 (omega arith)

percentile-Ranked_example :
    (rank : ℕ) × (i : ℕ) × IsRank 10 95 rank
    × Ranked histogram rank i
    × (percentile histogram 95 ≡ some (middle i))
percentile-Ranked_example =
    percentile-Ranked histogram 95 refl (omega arith) (omega arith) (omega arith) (omega arith)
