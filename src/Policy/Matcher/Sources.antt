-- ===== src/Policy/Matcher/Sources.antt =====
-- The sources that `match` collects for an explanation: those of the rules that apply.
use dimsum.Prelude.{
  ℕ, ◌≡◌, refl, sym, ap, ◌∙◌, ◌⊎◌, inl, inr, Bool, true, List, [], ◌∷◌, Bool-cases, ◌&&◌, not, ◌==◌,
  length,
}
use dimsum.Policy.Rules.{CompiledRule}
use dimsum.Policy.Matcher.{NameView, applies, find_sources}
use dimsum.Policy.Matcher.Sorted.{Has, SameSources}

-- The rule stands in the list.
abbrev pub In : CompiledRule → List CompiledRule → Type 0
In r [] = ⊥
In r (x ∷ xs) = (r ≡ x) ⊎ In r xs

-- The rule applies and has a source.
abbrev explains : NameView → CompiledRule → Bool
explains n r = applies n r && not (length r.source_id == 0)

-- The string is the source of such a rule.
abbrev Explained : NameView → List CompiledRule → List ℕ → Type 0
Explained n rules z = (r : CompiledRule) × In r rules × (explains n r ≡ true) × (z ≡ r.source_id)

find_sources-Explained :
    (n : NameView) (rules : List CompiledRule) (z : List ℕ)
    → Has z (find_sources n rules)
    → Explained n rules z
unfolding find_sources
find_sources-Explained n [] z i = absurd i
find_sources-Explained n (x ∷ rules) z i = elim (Bool-cases (explains n x)) [
  | inl on ↦
      let j : (z ≡ x.source_id) ⊎ Has z (find_sources n rules) = rw on at i in
      elim j [
        | inl e ↦ (x, inl refl, on, e)
        | inr k ↦ let (r, w, a, e) = find_sources-Explained n rules z k in (r, inr w, a, e)
      ]
  | inr off ↦
      let j : Has z (find_sources n rules) = rw off at i in
      let (r, w, a, e) = find_sources-Explained n rules z j in (r, inr w, a, e)
]

find_sources-Has :
    (n : NameView) (rules : List CompiledRule) (r : CompiledRule)
    → In r rules
    → explains n r ≡ true
    → Has r.source_id (find_sources n rules)
unfolding find_sources
find_sources-Has n [] r i a = absurd i
find_sources-Has n (x ∷ rules) r (inl e) a =
    let on : explains n x ≡ true = sym (ap (explains n) e) ∙ a in
    rw on (inl (ap CompiledRule.source_id e))
find_sources-Has n (x ∷ rules) r (inr i) a = elim (Bool-cases (explains n x)) [
  | inl on ↦ rw on (inr (find_sources-Has n rules r i a))
  | inr off ↦ rw off (find_sources-Has n rules r i a)
]

-- The sources of the rules that apply, whatever the order of the rules.
pub find_sources-SameSources :
    (n : NameView) (rs ss : List CompiledRule)
    → ((r : CompiledRule) → (In r rs → In r ss) × (In r ss → In r rs))
    → SameSources (find_sources n rs) (find_sources n ss)
find_sources-SameSources n rs ss same z = (
  λ i.
      let (r, w, a, e) = find_sources-Explained n rs z i in
      moved ss (sym e) (find_sources-Has n ss r ((same r).0 w) a),
  λ i.
      let (r, w, a, e) = find_sources-Explained n ss z i in
      moved rs (sym e) (find_sources-Has n rs r ((same r).1 w) a),
)
  where
    moved :
        {x : List ℕ} (rules : List CompiledRule)
        → x ≡ z
        → Has x (find_sources n rules)
        → Has z (find_sources n rules)
    moved rules e i = rw (sym e) i
