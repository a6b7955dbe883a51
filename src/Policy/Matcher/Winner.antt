-- ===== src/Policy/Matcher/Winner.antt =====
-- The winner of `match`: the most specific of the rules that apply, in whatever order they stand.
use dimsum.Prelude.{
  ℕ, ◌≤◌, ◌≡◌, refl, sym, ap, ◌∙◌, ◌⊎◌, inl, inr, Bool, true, false, Option, none, some, List, [],
  ◌∷◌, arith, Bool-cases,
}
use dimsum.Policy.Rules.{CompiledRule, rank, more_specific, network}
use dimsum.Policy.Rules.Order.{
  more_specific_irrefl, more_specific_negtrans, more_specific_total, more_specific_asym, rank-le,
}
use dimsum.Policy.Matcher.Sorted.{compact-sort}
use dimsum.Policy.Matcher.Sources.{In, find_sources-SameSources}
use dimsum.Policy.Matcher.{
  Matcher, NameView, forward, Decision, applies, better, find_winner, decision_of, match_name,
  verdict_of, find_sources,
}

-- `w` is among the rules, applies, and no rule that applies is more specific.
pub record Wins (n : NameView) (rules : List CompiledRule) (w : CompiledRule) : Type 0 where
  pub among : In w rules
  pub applying : applies n w ≡ true
  pub best : (r : CompiledRule) → In r rules → applies n r ≡ true → more_specific r w ≡ false

abbrev pub Quiet : NameView → List CompiledRule → Type 0
Quiet n rules = (r : CompiledRule) → In r rules → applies n r ≡ false

-- The loop from a winner on.
abbrev Goes : NameView → CompiledRule → List CompiledRule → CompiledRule → Type 0
Goes n w rules w' =
    ((w' ≡ w) ⊎ (In w' rules × (applies n w' ≡ true)))
    × (more_specific w w' ≡ false)
    × ((r : CompiledRule) → In r rules → applies n r ≡ true → more_specific r w' ≡ false)

Goes-cons :
    (n : NameView) (w v x : CompiledRule) (rules : List CompiledRule) (w' : CompiledRule)
    → (v ≡ w) ⊎ ((v ≡ x) × (applies n x ≡ true))
    → more_specific w v ≡ false
    → (applies n x ≡ true → more_specific x v ≡ false)
    → Goes n v rules w'
    → Goes n w (x ∷ rules) w'
Goes-cons n w v x rules w' from old new g =
    (source g.0 from, more_specific_negtrans w v w' old g.1, others)
  where
    source :
        (w' ≡ v) ⊎ (In w' rules × (applies n w' ≡ true))
        → (v ≡ w) ⊎ ((v ≡ x) × (applies n x ≡ true))
        → (w' ≡ w) ⊎ (In w' (x ∷ rules) × (applies n w' ≡ true))
    source (inl e) (inl k) = inl (e ∙ k)
    source (inl e) (inr (k, a)) = inr (inl (e ∙ k), ap (applies n) (e ∙ k) ∙ a)
    source (inr (i, a)) _ = inr (inr i, a)

    others : (r : CompiledRule) → In r (x ∷ rules) → applies n r ≡ true → more_specific r w' ≡ false
    others r (inl e) a =
        more_specific_negtrans r v w'
          (ap (λ t. more_specific t v) e ∙ new (sym (ap (applies n) e) ∙ a)) g.1
    others r (inr i) a = g.2 r i a

winner_from :
    (n : NameView) (w : CompiledRule) (rules : List CompiledRule)
    → (w' : CompiledRule) × (find_winner n (some w) rules ≡ some w') × Goes n w rules w'
unfolding find_winner better
winner_from n w [] = (w, refl, (inl refl, more_specific_irrefl w, λ r i a. elim i [ ]))
winner_from n w (x ∷ rules) = elim (Bool-cases (applies n x)) [
  | inr off ↦
      let (w', e, g) = winner_from n w rules in
      (
        w',
        rw off e,
        Goes-cons n w w x rules w' (inl refl) (more_specific_irrefl w) (λ a. ground arith) g,
      )
  | inl on ↦ elim (Bool-cases (more_specific x w)) [
    | inl up ↦
        let (w', e, g) = winner_from n x rules in
        (
          w',
          rw (on, up) e,
          Goes-cons n w x x rules w' (inr (refl, on)) (more_specific_asym x w up)
              (λ a. more_specific_irrefl x) g,
        )
    | inr stay ↦
        let (w', e, g) = winner_from n w rules in
        (
          w',
          rw (on, stay) e,
          Goes-cons n w w x rules w' (inl refl) (more_specific_irrefl w) (λ a. stay) g,
        )
  ]
]

-- What the loop answers, as a whole.
pub data Outcome (n : NameView) (rules : List CompiledRule) : Option CompiledRule → Type 0 where
  quiet : Quiet n rules → Outcome n rules none
  winner : {w : CompiledRule} → Wins n rules w → Outcome n rules (some w)

skip_off :
    (n : NameView) (x : CompiledRule) (rules : List CompiledRule) (o : Option CompiledRule)
    → applies n x ≡ false
    → Outcome n rules o
    → Outcome n (x ∷ rules) o
skip_off n x rules o off (quiet q) = quiet (λ r i. still r i)
  where
    still : (r : CompiledRule) → In r (x ∷ rules) → applies n r ≡ false
    still r (inl e) = ap (applies n) e ∙ off
    still r (inr i) = q r i
skip_off n x rules o off (winner {w = w} h) =
    winner (record { among = inr h.among; applying = h.applying; best = best })
  where
    best : (r : CompiledRule) → In r (x ∷ rules) → applies n r ≡ true → more_specific r w ≡ false
    best r (inl e) a = absurd (cc (ap (applies n) e, off))
    best r (inr i) a = h.best r i a

take_on :
    (n : NameView) (x w : CompiledRule) (rules : List CompiledRule)
    → applies n x ≡ true
    → Goes n x rules w
    → Wins n (x ∷ rules) w
take_on n x w rules on g = record { among = among g.0; applying = applying g.0; best = best }
  where
    among : (w ≡ x) ⊎ (In w rules × (applies n w ≡ true)) → In w (x ∷ rules)
    among (inl e) = inl e
    among (inr (i, a)) = inr i

    applying : (w ≡ x) ⊎ (In w rules × (applies n w ≡ true)) → applies n w ≡ true
    applying (inl e) = ap (applies n) e ∙ on
    applying (inr (i, a)) = a

    best : (r : CompiledRule) → In r (x ∷ rules) → applies n r ≡ true → more_specific r w ≡ false
    best r (inl e) a = ap (λ t. more_specific t w) e ∙ g.1
    best r (inr i) a = g.2 r i a

pub find_winner-Outcome :
    (n : NameView) (rules : List CompiledRule) → Outcome n rules (find_winner n none rules)
unfolding find_winner better
find_winner-Outcome n [] = quiet (λ r i. elim i [ ])
find_winner-Outcome n (x ∷ rules) = elim (Bool-cases (applies n x)) [
  | inr off ↦ rw off (skip_off n x rules _ off (find_winner-Outcome n rules))
  | inl on ↦ let (w, e, g) = winner_from n x rules in rw (on, e) (winner (take_on n x w rules on g))
]

-- The same rules in another order or multiplicity, and identifiers that tell rules apart.
abbrev pub SameRules : List CompiledRule → List CompiledRule → Type 0
SameRules rs ss = (r : CompiledRule) → (In r rs → In r ss) × (In r ss → In r rs)

abbrev pub DistinctIds : List CompiledRule → Type 0
DistinctIds rs = (a b : CompiledRule) → In a rs → In b rs → a.id ≡ b.id → a ≡ b

same_answer :
    (n : NameView) (rs ss : List CompiledRule) (o p : Option CompiledRule)
    → SameRules rs ss
    → DistinctIds rs
    → Outcome n rs o
    → Outcome n ss p
    → o ≡ p
same_answer n rs ss o p same ids (quiet q) (quiet k) = refl
same_answer n rs ss o p same ids (quiet q) (winner h) =
    absurd (cc (q _ ((same _).1 h.among), h.applying))
same_answer n rs ss o p same ids (winner h) (quiet k) =
    absurd (cc (k _ ((same _).0 h.among), h.applying))
same_answer n rs ss o p same ids (winner {w = v} h) (winner {w = w} k) =
    let w_in = (same w).1 k.among in
    ap some (
      ids v w h.among w_in (
        more_specific_total v w (k.best v ((same v).0 h.among) h.applying)
          (h.best w w_in k.applying)))

-- A decision does not depend on the order in which the rules were compiled: two matchers of one
-- generation that hold the same rules, whose identifiers are distinct as `Compile` demands, decide
-- every name alike, the sources of an explanation included.
pub match_name-SameRules :
    (l m : Matcher) (n : NameView) (explain : Bool)
    → l.generation ≡ m.generation
    → SameRules l.rules m.rules
    → DistinctIds l.rules
    → match_name l n explain ≡ match_name m n explain
unfolding match_name
match_name-SameRules l m n explain g same ids =
    let winner =
      same_answer n l.rules m.rules _ _ same ids (find_winner-Outcome n l.rules)
        (find_winner-Outcome n m.rules) in
    let sources =
      compact-sort (find_sources n l.rules) (find_sources n m.rules)
        (find_sources-SameSources n l.rules m.rules same) in
    cc (g, winner, sources)

-- The decision names the winner: no rule applies and the query is forwarded with no rule, or the
-- rule with the decision's identifier and scope applies, no rule that applies is more specific or of
-- a class that comes before the winner's, and the result is the winner's class: allow for the two
-- allow classes, block for the others.
pub data Decides (m : Matcher) (n : NameView) (d : Decision) : Type 0 where
  forwards :
      Quiet n m.rules → d.result ≡ forward → d.rule_id ≡ [] → d.scope ≡ network → Decides m n d
  rules_on :
      (w : CompiledRule)
      → Wins n m.rules w
      → ((r : CompiledRule) → In r m.rules → applies n r ≡ true → rank w.class ≤ rank r.class)
      → d.result ≡ verdict_of w.class
      → d.rule_id ≡ w.id
      → d.scope ≡ w.scope
      → Decides m n d

Decides-decision_of :
    (m : Matcher) (n : NameView) (o : Option CompiledRule) (sources : List (List ℕ))
    → Outcome n m.rules o
    → Decides m n (decision_of m.generation o sources)
unfolding decision_of
Decides-decision_of m n o sources (quiet q) = forwards q refl refl refl
Decides-decision_of m n o sources (winner {w = w} h) =
    rules_on w h (λ r i a. rank-le w r (h.best r i a)) refl refl refl

-- `match` forwards a name to which no rule applies; otherwise it decides by a rule that applies and
-- that no applying rule exceeds in specificity or precedes in class, and reports that rule.
pub match_name-Decides :
    (m : Matcher) (n : NameView) (explain : Bool) → Decides m n (match_name m n explain)
unfolding match_name
match_name-Decides m n explain = Decides-decision_of m n _ _ (find_winner-Outcome n m.rules)
