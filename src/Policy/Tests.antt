-- ===== src/Policy/Tests.antt =====
-- Runs of the policy on concrete rules, and its theorems at such inputs.
use dimsum.Prelude.{
  ℕ, ◌<◌, ◌≡◌, refl, sym, ap, ◌∙◌, ◌≢◌, ◌↔◌, ◌⊎◌, inl, inr, true, false, ◌&&◌, List, [], ◌∷◌, ◌++◌,
  arith, length, get_or, ok, err, Returns, loop,
}
use dimsum.Prelude.Bytes.{slice, bytes_eq}
use dimsum.DnsWire.Labels.{wire_of}
use dimsum.Policy.Names.{NameError, fold_step, name_from_wire, labels_step, labels}
use dimsum.Policy.Names.RoundTrip.{Spells, folded, name_from_wire-wire_of, name_from_wire-Spells}
use dimsum.Policy.Glob.{glob_row, glob_next, glob_rows, label_glob}
use dimsum.Policy.Glob.Meaning.{Matches, label_glob_iff}
use dimsum.Policy.Rules.{
  exact, suffix, custom_allow, subscription_deny, network, CompiledRule, member, eligible, rank,
  score, bytes_lt, more_specific,
}
use dimsum.Policy.Matcher.{
  agree_from, globs_from, matches_suffix, matches_glob, matches, Matcher, NameView, allow, block,
  Query, applies, better, find_winner, find_sources, insert_sorted, sort, compact, decision_of,
  match_name, evaluate, is_wildcard, is_allow,
}
use dimsum.Policy.Matcher.Winner.{
  Decides, SameRules, DistinctIds, match_name-Decides, match_name-SameRules,
}
use dimsum.Policy.Matcher.Evaluation.{is_alias, evaluate-block_iff, Answered, evaluate-Answered}
use dimsum.Policy.Matcher.Suffix.{matches_suffix_iff}

program : Unit {0}
unfolding slice bytes_eq loop fold_step name_from_wire labels_step labels glob_row glob_next
    glob_rows label_glob member eligible rank score bytes_lt more_specific agree_from globs_from
    matches_suffix matches_glob matches applies better find_winner find_sources insert_sorted sort
    compact decision_of match_name evaluate
program = tt

abbrev dot_com : List ℕ
dot_com = 99 ∷ 111 ∷ 109 ∷ []

abbrev ads : List ℕ
ads = 97 ∷ 100 ∷ 115 ∷ []

abbrev upper_ads : List ℕ
upper_ads = 65 ∷ 100 ∷ 83 ∷ []

abbrev ads_com : NameView
ads_com = record { wire = wire_of (ads ∷ dot_com ∷ []); labels = ads ∷ dot_com ∷ []; display = [] }

abbrev only_com : NameView
only_com = record { wire = wire_of (dot_com ∷ []); labels = dot_com ∷ []; display = [] }

-- A subscription blocks everything under com; the owner allows ads.com itself.
abbrev block_com : CompiledRule
block_com = record {
  scope = network;
  id = 98 ∷ [];
  source_id = 115 ∷ [];
  class = subscription_deny;
  kind = suffix;
  name = wire_of (dot_com ∷ []);
  labels = dot_com ∷ [];
  descendants = false;
  re = λ _. false;
}

abbrev allow_ads : CompiledRule
allow_ads = record block_com {
  id = 97 ∷ [];
  class = custom_allow;
  kind = exact;
  name = wire_of (ads ∷ dot_com ∷ []);
  labels = ads ∷ dot_com ∷ [];
}

abbrev matcher : Matcher
matcher = record { generation = 3; rules = block_com ∷ allow_ads ∷ [] }

abbrev turned : Matcher
turned = record { generation = 3; rules = allow_ads ∷ block_com ∷ [] }

abbrev alias : Query
alias = record {
  original = ads_com;
  name = only_com;
  local_zone = false;
  policy_paused = false;
  explain = true;
}

owner_allows : (match_name matcher ads_com false).result ≡ allow
unfolding program
owner_allows = refl

list_blocks : (match_name matcher only_com false).result ≡ block
unfolding program
list_blocks = refl

alias_allowed : (evaluate matcher alias).result ≡ allow
unfolding program
alias_allowed = refl

sources_explained : (match_name matcher ads_com true).source_ids ≡ (115 ∷ []) ∷ []
unfolding program
sources_explained = refl

name_folded : name_from_wire (wire_of (upper_ads ∷ []) ++ (0 ∷ [])) ≡ ok (wire_of (ads ∷ []))
unfolding program
name_folded = refl

name_trailing : name_from_wire (0 ∷ 0 ∷ []) ≡ err NameError.malformed
unfolding program
name_trailing = refl

name_from_wire-wire_of_example :
    name_from_wire (wire_of (upper_ads ∷ dot_com ∷ []) ++ (0 ∷ []))
    ≡ ok (wire_of (folded (upper_ads ∷ dot_com ∷ [])))
name_from_wire-wire_of_example =
    name_from_wire-wire_of (upper_ads ∷ dot_com ∷ []) (omega arith) (omega arith)

-- The name "adS.com" with its root.
abbrev mixed_case : List ℕ
mixed_case = 3 ∷ 97 ∷ 100 ∷ 83 ∷ 3 ∷ 99 ∷ 111 ∷ 109 ∷ 0 ∷ []

mixed_accepted : name_from_wire mixed_case ≡ ok (wire_of (ads ∷ dot_com ∷ []))
unfolding program
mixed_accepted = refl

name_from_wire-Spells_example : Returns (Spells mixed_case) (name_from_wire mixed_case)
name_from_wire-Spells_example = name_from_wire-Spells mixed_case (omega arith)

label_glob_iff_example :
    (label_glob (b'a' ∷ b'*' ∷ b'?' ∷ []) ads ≡ true) ↔ Matches (b'a' ∷ b'*' ∷ b'?' ∷ []) ads
label_glob_iff_example = label_glob_iff (b'a' ∷ b'*' ∷ b'?' ∷ []) ads

matches_suffix_iff_example : (matches_suffix block_com (ads ∷ dot_com ∷ []) ≡ true) ↔ (
    (front : List (List ℕ)) × (◌≡◌ {A = List (List ℕ)}
      (ads ∷ dot_com ∷ [])
      (front ++ block_com.labels))
    × ((is_wildcard block_com.kind ≡ false) ⊎ (0 < length front)))
matches_suffix_iff_example = matches_suffix_iff block_com (ads ∷ dot_com ∷ [])

match_name-Decides_example : Decides matcher ads_com (match_name matcher ads_com true)
match_name-Decides_example = match_name-Decides matcher ads_com true

abbrev first_byte : CompiledRule → ℕ
first_byte r = get_or r.id 0 0

same : SameRules matcher.rules turned.rules
same r = (flip_front, flip_front')
  where
    flip_front : (r ≡ block_com) ⊎ ((r ≡ allow_ads) ⊎ ⊥) → (r ≡ allow_ads) ⊎ ((r ≡ block_com) ⊎ ⊥)
    flip_front (inl e) = inr (inl e)
    flip_front (inr (inl e)) = inl e
    flip_front (inr (inr e)) = absurd e

    flip_front' : (r ≡ allow_ads) ⊎ ((r ≡ block_com) ⊎ ⊥) → (r ≡ block_com) ⊎ ((r ≡ allow_ads) ⊎ ⊥)
    flip_front' (inl e) = inr (inl e)
    flip_front' (inr (inl e)) = inl e
    flip_front' (inr (inr e)) = absurd e

two_ids :
    (a b : CompiledRule) {x y : CompiledRule}
    → a ≡ x
    → b ≡ y
    → a.id ≡ b.id
    → first_byte x ≢ first_byte y
    → ⊥
two_ids a b e k h apart = apart (sym (ap first_byte e) ∙ ap (λ l. get_or l 0 0) h ∙ ap first_byte k)

distinct : DistinctIds matcher.rules
distinct a b (inl e) (inl k) h = e ∙ sym k
distinct a b (inl e) (inr (inl k)) h = absurd (two_ids a b e k h (omega arith))
distinct a b (inr (inl e)) (inl k) h = absurd (two_ids a b e k h (omega arith))
distinct a b (inr (inl e)) (inr (inl k)) h = e ∙ sym k
distinct a b (inr (inr e)) k h = absurd e
distinct a b (inl e) (inr (inr k)) h = absurd k
distinct a b (inr (inl e)) (inr (inr k)) h = absurd k

match_name-SameRules_example : match_name matcher ads_com true ≡ match_name turned ads_com true
match_name-SameRules_example = match_name-SameRules matcher turned ads_com true refl same distinct

evaluate-block_iff_example : ((evaluate matcher alias).result ≡ block) ↔ (
    (alias.local_zone ≡ false)
    × (alias.policy_paused ≡ false)
    × ((match_name matcher alias.name alias.explain).result ≡ block)
    × ((is_alias alias && is_allow (match_name matcher alias.original alias.explain).result)
        ≡ false))
evaluate-block_iff_example = evaluate-block_iff matcher alias

evaluate-Answered_example :
    ((evaluate matcher alias).generation ≡ matcher.generation)
    × Answered matcher alias (evaluate matcher alias)
evaluate-Answered_example = evaluate-Answered matcher alias
