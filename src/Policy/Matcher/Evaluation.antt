-- ===== src/Policy/Matcher/Evaluation.antt =====
-- `Evaluate`: when a query is blocked, and what an allow of the original question covers.
use dimsum.Prelude.{
  ◌≡◌, ◌↔◌, Bool, true, false, ◌&&◌, not, arith, refl, List, [], ℕ, Option, none, some,
  if◌then◌else◌,
}
use dimsum.Prelude.Bytes.{bytes_eq}
use dimsum.Policy.Rules.{CompiledRule, network}
use dimsum.Policy.Matcher.{
  Matcher, NameView, Decision, Verdict, forward, local, paused, allow, block, Query, is_allow,
  decision_of, match_name, evaluate,
}
use dimsum.Policy.Matcher.Winner.{Decides, forwards, rules_on, match_name-Decides}

-- `q.Name != q.Original`
abbrev pub is_alias : Query → Bool
is_alias q = not (bytes_eq q.name.wire q.original.wire)

-- A query is blocked exactly when it is neither in a local zone nor paused, its name's own winner
-- blocks, and it is no alias of an original question whose winner allows: so neither a pause nor a
-- local zone is ever overruled, and an allow that an owner's deny shadows exempts no alias.
pub evaluate-block_iff :
    (m : Matcher) (q : Query)
    → ((evaluate m q).result ≡ block) ↔ (
        (q.local_zone ≡ false)
        × (q.policy_paused ≡ false)
        × ((match_name m q.name q.explain).result ≡ block)
        × ((is_alias q && is_allow (match_name m q.original q.explain).result) ≡ false))
unfolding evaluate
evaluate-block_iff m q = ground arith

-- The answer that a query gets, by the query and by the rules of its names.
pub data Answered (m : Matcher) (q : Query) (d : Decision) : Type 0 where
  in_zone :
      q.local_zone ≡ true → d.result ≡ local → d.rule_id ≡ [] → d.scope ≡ network → Answered m q d
  in_pause :
      q.local_zone ≡ false
      → q.policy_paused ≡ true
      → d.result ≡ paused
      → d.rule_id ≡ []
      → d.scope ≡ network
      → Answered m q d
  exempt :
      q.local_zone ≡ false
      → q.policy_paused ≡ false
      → is_alias q ≡ true
      → Decides m q.original d
      → d.result ≡ allow
      → Answered m q d
  own :
      q.local_zone ≡ false
      → q.policy_paused ≡ false
      → (is_alias q && is_allow (match_name m q.original q.explain).result) ≡ false
      → Decides m q.name d
      → Answered m q d

-- The sources of a decision do not bear on what it decides.
Decides-sources :
    (m : Matcher) (n : NameView) (d : Decision) (sources : List (List ℕ))
    → Decides m n d
    → Decides m n (record d { source_ids = sources })
Decides-sources m n d sources (forwards q r i s) = forwards q r i s
Decides-sources m n d sources (rules_on w h c r i s) = rules_on w h c r i s

is_allow_iff : (v : Verdict) → is_allow v ≡ true → v ≡ allow
is_allow_iff allow h = refl
is_allow_iff forward h = cc
is_allow_iff block h = cc
is_allow_iff local h = cc
is_allow_iff paused h = cc

Answered-if :
    (m : Matcher) (q : Query) (b : Bool) (x y : Decision)
    → (b ≡ true → Answered m q x)
    → (b ≡ false → Answered m q y)
    → Answered m q (if b then x else y)
Answered-if m q true x y f g = f refl
Answered-if m q false x y f g = g refl

decision_of_generation :
    (generation : ℕ) (o : Option CompiledRule) (sources : List (List ℕ))
    → (decision_of generation o sources).generation ≡ generation
unfolding decision_of
decision_of_generation generation none sources = refl
decision_of_generation generation (some r) sources = refl

match_name_generation :
    (m : Matcher) (n : NameView) (explain : Bool)
    → (match_name m n explain).generation ≡ m.generation
unfolding match_name
match_name_generation m n explain = decision_of_generation m.generation _ _

evaluate_generation : (m : Matcher) (q : Query) → (evaluate m q).generation ≡ m.generation
unfolding evaluate
evaluate_generation m q =
    ground (
      arith,
      match_name_generation m q.name q.explain,
      match_name_generation m q.original q.explain,
    )

-- Every query is answered for the matcher's generation, and in one of four ways. In a local zone, and
-- otherwise in a pause, the answer says so and names no rule. Otherwise an alias of an original
-- question whose name is allowed by its most specific rule gets this rule's answer. Any other query
-- gets the answer of the most specific rule that applies to its own name, or is forwarded if there is
-- none.
pub evaluate-Answered :
    (m : Matcher) (q : Query)
    → ((evaluate m q).generation ≡ m.generation) × Answered m q (evaluate m q)
unfolding evaluate
evaluate-Answered m q =
    let o = match_name m q.original q.explain in
    let d = match_name m q.name q.explain in
    let winner = match_name-Decides m q.original q.explain in
    let exempted = is_alias q && is_allow o.result in
    (
      evaluate_generation m q,
      Answered-if m q q.local_zone _ _ (λ zone. in_zone zone refl refl refl)
          λ zone.
            Answered-if m q q.policy_paused _ _ (λ pause. in_pause zone pause refl refl refl)
              λ pause.
                Answered-if m q exempted _ d
                  (λ both.
                    let other : is_alias q ≡ true = ground arith in
                    let allowed = is_allow_iff o.result (ground arith) in
                    Answered-if m q q.explain _ o
                      (λ _.
                        exempt zone pause other (Decides-sources m q.original o _ winner) allowed)
                      (λ _. exempt zone pause other winner allowed))
                  (λ neither. own zone pause neither (match_name-Decides m q.name q.explain)),
    )
