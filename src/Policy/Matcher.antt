-- ===== src/Policy/Matcher.antt =====
-- internal/policy/match.go and precedence.go: `compiledRule.matches`, `Matcher.match` and `Evaluate`.
pub mod Suffix
pub mod Winner
pub mod Sorted
pub mod Sources
pub mod Evaluation
use dimsum.Prelude.{
  ℕ, ◌+◌, ◌-◌, Bool, true, false, ◌&&◌, ◌||◌, not, Option, none, some, List, [], ◌∷◌, ◌++◌, ltb,
  leb, ◌==◌, if◌then◌else◌, length, get_or, drop, Result, ok, ◌>>=◌, ◌>>◌,
}
use dimsum.Prelude.Bytes.{bytes_eq}
use dimsum.Policy.Names.{NameError, labels, display_labels}
use dimsum.Policy.Glob.{label_glob}
use dimsum.Policy.Rules.{
  Kind, exact, suffix, wildcard, glob, regex, Class, custom_allow, subscription_allow, Scope,
  network, CompiledRule, eligible, more_specific, bytes_lt,
}

-- `for i, label := range r.labels` of the suffix forms, from the index `i` of `labels` on.
unfoldable pub agree_from : List (List ℕ) → ℕ → List (List ℕ) → Bool
agree_from labels i [] = true
agree_from labels i (l ∷ ls) =
    let rest = agree_from labels (i + 1) ls in
    if not (bytes_eq (get_or labels i []) l) then false else rest

-- The same loop of the glob form.
unfoldable pub globs_from : List (List ℕ) → ℕ → List (List ℕ) → Bool
globs_from labels i [] = true
globs_from labels i (p ∷ ps) =
    let rest = globs_from labels (i + 1) ps in
    if not (label_glob p (get_or labels i [])) then false else rest

abbrev pub is_wildcard : Kind → Bool
is_wildcard wildcard = true
is_wildcard _ = false

unfoldable pub matches_suffix : CompiledRule → List (List ℕ) → Bool
matches_suffix r labels =
    let n = length labels in
    let k = length r.labels in
    if ltb n k || (is_wildcard r.kind && n == k) then false else agree_from labels (n - k) r.labels

unfoldable pub matches_glob : CompiledRule → List (List ℕ) → Bool
matches_glob r labels =
    let n = length labels in
    let k = length r.labels in
    if r.descendants
    then (if leb n k then false else globs_from (drop (n - k) labels) 0 r.labels)
    else if not (n == k)
    then false
    else globs_from labels 0 r.labels

-- `matches`: the name's wire form, its labels and its display form.
unfoldable pub matches : CompiledRule → List ℕ → List (List ℕ) → List ℕ → Bool
matches r n labels display = elim r.kind [
  | exact ↦ bytes_eq n r.name
  | suffix ↦ matches_suffix r labels
  | wildcard ↦ matches_suffix r labels
  | glob ↦ matches_glob r labels
  | regex ↦ r.re display
]

pub data Verdict : Type 0 where
  forward allow block local paused : Verdict

-- `rule_id` is "" where no rule won.
pub record Decision : Type 0 where
  pub scope : Scope
  pub result : Verdict
  pub generation : ℕ
  pub rule_id : List ℕ
  pub source_ids : List (List ℕ)

pub record Matcher : Type 0 where
  pub generation : ℕ
  pub rules : List CompiledRule

-- A name with what `match` derives from it: `labels()` and `Display()`.
pub record NameView : Type 0 where
  pub wire : List ℕ
  pub labels : List (List ℕ)
  pub display : List ℕ

-- `n.labels()` and `n.Display()` at the head of `match`. A name that `NameFromWire` made never
-- panics here.
unfoldable pub view_of : List ℕ → Result NameError NameView
view_of wire = do
  ls ← labels wire
  ok (record { wire = wire; labels = ls; display = display_labels ls })

-- The two tests that let a rule take part.
unfoldable pub applies : NameView → CompiledRule → Bool
applies n r = eligible none r.scope r.class r.source_id && matches r n.wire n.labels n.display

-- `if winner == nil || moreSpecific(r, winner) { winner = r }`
unfoldable pub better : Option CompiledRule → CompiledRule → Option CompiledRule
better none r = some r
better (some winner) r = if more_specific r winner then some r else some winner

-- The loop of `match`: the winner so far.
unfoldable pub find_winner :
    NameView → Option CompiledRule → List CompiledRule → Option CompiledRule
find_winner n winner [] = winner
find_winner n winner (r ∷ rules) =
    find_winner n (if applies n r then better winner r else winner) rules

-- The sources of the loop, in the order of the rules.
unfoldable pub find_sources : NameView → List CompiledRule → List (List ℕ)
find_sources n [] = []
find_sources n (r ∷ rules) =
    let rest = find_sources n rules in
    if applies n r && not (length r.source_id == 0) then r.source_id ∷ rest else rest

-- slices.Sort and slices.Compact: the sorted list with no repeated neighbours.
unfoldable pub insert_sorted : List ℕ → List (List ℕ) → List (List ℕ)
insert_sorted x [] = x ∷ []
insert_sorted x (y ∷ ys) =
    let rest = insert_sorted x ys in if bytes_lt y x then y ∷ rest else x ∷ (y ∷ ys)

unfoldable pub sort : List (List ℕ) → List (List ℕ)
sort [] = []
sort (x ∷ xs) = insert_sorted x (sort xs)

unfoldable pub compact : List (List ℕ) → List (List ℕ)
compact [] = []
compact (x ∷ []) = x ∷ []
compact (x ∷ y ∷ ys) = let rest = compact (y ∷ ys) in if bytes_eq x y then rest else x ∷ rest

abbrev pub verdict_of : Class → Verdict
verdict_of custom_allow = allow
verdict_of subscription_allow = allow
verdict_of _ = block

unfoldable pub decision_of : ℕ → Option CompiledRule → List (List ℕ) → Decision
decision_of generation none sources = record {
  scope = network;
  result = forward;
  generation = generation;
  rule_id = [];
  source_ids = sources;
}
decision_of generation (some r) sources = record {
  scope = r.scope;
  result = verdict_of r.class;
  generation = generation;
  rule_id = r.id;
  source_ids = sources;
}

-- `match`
unfoldable pub match_name : Matcher → NameView → Bool → Decision
match_name m n explain =
    decision_of m.generation (find_winner n none m.rules)
      (if explain then compact (sort (find_sources n m.rules)) else [])

pub record Query : Type 0 where
  pub original : NameView
  pub name : NameView
  pub local_zone : Bool
  pub policy_paused : Bool
  pub explain : Bool

abbrev pub is_allow : Verdict → Bool
is_allow allow = true
is_allow _ = false

unfoldable pub evaluate : Matcher → Query → Decision
evaluate m q =
    let d = match_name m q.name q.explain in
    let o = match_name m q.original q.explain in
    if q.local_zone
    then record d { result = local; rule_id = []; scope = network }
    else if q.policy_paused
    then record d { result = paused; rule_id = []; scope = network }
    else if not (bytes_eq q.name.wire q.original.wire) && is_allow o.result
    then (if q.explain
        then record o { source_ids = compact (sort (o.source_ids ++ d.source_ids)) }
        else o)
    else d
