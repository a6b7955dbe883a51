-- ===== src/DnsWire/Samples.antt =====
-- Messages for the tests.
use dimsum.Prelude.{ℕ, List, [], ◌∷◌, ◌++◌}
use dimsum.DnsWire.Labels.{wire_of}

-- The name "Go.dev" as labels, and a query for its address.
abbrev pub go_dev : List (List ℕ)
go_dev = (71 ∷ 111 ∷ []) ∷ (100 ∷ 101 ∷ 118 ∷ []) ∷ []

abbrev pub query : List ℕ
query = 0 ∷ 7 ∷ 1 ∷ 0 ∷ 0 ∷ 1 ∷ 0 ∷ 0 ∷ 0 ∷ 0 ∷ 0 ∷ 0 ∷ (wire_of go_dev ++ (0 ∷ 0 ∷ 1 ∷ 0 ∷ 1 ∷ []))

-- The reply: one A record whose owner is a pointer to the question's name.
abbrev pub reply : List ℕ
reply =
    0
    ∷ 7
    ∷ 129
    ∷ 128
    ∷ 0
    ∷ 1
    ∷ 0
    ∷ 1
    ∷ 0
    ∷ 0
    ∷ 0
    ∷ 0
    ∷ (wire_of go_dev
        ++ (0 ∷ 0 ∷ 1 ∷ 0 ∷ 1 ∷ 192 ∷ 12 ∷ 0 ∷ 1 ∷ 0 ∷ 1 ∷ 0 ∷ 0 ∷ 0 ∷ 60 ∷ 0 ∷ 4 ∷ 1 ∷ 2 ∷ 3 ∷ 4
            ∷ []))
