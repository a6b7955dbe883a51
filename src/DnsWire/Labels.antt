-- ===== src/DnsWire/Labels.antt =====
-- The specification of an uncompressed wire name: its labels, each behind its length.
use dimsum.Prelude.{ℕ, ◌<◌, ◌≡◌, refl, sym, List, [], ◌∷◌, ◌++◌, append_assoc, length, All, ap, ◌∙◌}
use dimsum.Prelude.Bytes.{IsByte}

abbrev pub IsLabel : List ℕ → Type 0
IsLabel l = (0 < length l) × (length l < 64) × All IsByte l

-- The labels in order, without the root's zero byte.
abbrev pub wire_of : List (List ℕ) → List ℕ
wire_of [] = []
wire_of (l ∷ ls) = length l ∷ (l ++ wire_of ls)

pub wire_of-append : (ls ks : List (List ℕ)) → wire_of (ls ++ ks) ≡ wire_of ls ++ wire_of ks
wire_of-append [] ks = refl
wire_of-append (l ∷ ls) ks =
    ap (λ t. length l ∷ (l ++ t)) (wire_of-append ls ks)
    ∙ ap (◌∷◌ (length l)) (sym (append_assoc l (wire_of ls) (wire_of ks)))
