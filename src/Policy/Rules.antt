-- ===== src/Policy/Rules.antt =====
-- internal/policy/rule.go, scope.go and precedence.go: rules, their owners and their order.
pub mod Order
use dimsum.Prelude.{
  ℕ, ◌+◌, ◌*◌, Bool, true, false, ◌||◌, not, Option, none, some, List, [], ◌∷◌, ltb, ◌==◌,
  if◌then◌else◌, length,
}
use dimsum.Prelude.Bytes.{bytes_eq}

-- A rule's form. Compilation refuses any other string.
pub data Kind : Type 0 where
  exact suffix wildcard glob regex : Kind

pub data Class : Type 0 where
  custom_allow custom_deny subscription_allow subscription_deny special_deny : Class

pub data ScopeKind : Type 0 where
  network_scope profile_scope client_scope : ScopeKind

-- Identifiers are strings, as lists of bytes.
pub record Scope : Type 0 where
  pub kind : ScopeKind
  pub id : List ℕ

abbrev pub network : Scope
network = record { kind = network_scope; id = [] }

-- The compiled rule with the fields of its `Rule` that matching reads. `re` is the compiled regular
-- expression, which is only ever asked whether it matches a displayed name.
pub record CompiledRule : Type 0 where
  pub scope : Scope
  pub id : List ℕ
  pub source_id : List ℕ
  pub class : Class
  pub kind : Kind
  pub name : List ℕ
  pub labels : List (List ℕ)
  pub descendants : Bool
  pub re : List ℕ → Bool

-- `Selection`: the set of sources as a list.
pub record Selection : Type 0 where
  pub profile : List ℕ
  pub client : List ℕ
  pub sources : List (List ℕ)

unfoldable pub member : List ℕ → List (List ℕ) → Bool
member x [] = false
member x (y ∷ ys) = bytes_eq y x || member x ys

abbrev pub is_subscription : Class → Bool
is_subscription subscription_allow = true
is_subscription subscription_deny = true
is_subscription _ = false

abbrev owner_matches : Option Selection → Scope → Bool
owner_matches none s = elim s.kind [ network_scope ↦ true | _ ↦ false ]
owner_matches (some selection) s = elim s.kind [
  | client_scope ↦ bytes_eq s.id selection.client
  | profile_scope ↦ bytes_eq s.id selection.profile
  | network_scope ↦ true
]

abbrev source_allowed : Option Selection → Class → List ℕ → Bool
source_allowed none class source = true
source_allowed (some selection) class source =
    not (is_subscription class) || member source selection.sources

-- `(*Selection).eligible`; `none` is the nil selection.
unfoldable pub eligible : Option Selection → Scope → Class → List ℕ → Bool
eligible selection scope class source =
    if not (owner_matches selection scope) then false else source_allowed selection class source

-- `rank`; no compiled rule has the rank -1.
unfoldable pub rank : Class → ℕ
rank custom_allow = 0
rank custom_deny = 1
rank subscription_allow = 2
rank subscription_deny = 3
rank special_deny = 4

unfoldable pub score : CompiledRule → ℕ
score r = elim r.kind [ exact ↦ 2 * length r.labels + 1 | suffix ↦ 2 * length r.labels | _ ↦ 0 ]

-- Go's `<` on strings.
unfoldable pub bytes_lt : List ℕ → List ℕ → Bool
bytes_lt [] [] = false
bytes_lt [] (y ∷ ys) = true
bytes_lt (x ∷ xs) [] = false
bytes_lt (x ∷ xs) (y ∷ ys) = if x == y then bytes_lt xs ys else ltb x y

unfoldable pub more_specific : CompiledRule → CompiledRule → Bool
more_specific a b =
    if not (rank a.class == rank b.class)
    then ltb (rank a.class) (rank b.class)
    else if not (score a == score b)
    then ltb (score b) (score a)
    else bytes_lt a.id b.id
