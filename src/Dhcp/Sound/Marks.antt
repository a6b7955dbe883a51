-- ===== src/Dhcp/Sound/Marks.antt =====
-- The bitmap of the lease engine: the bit of every owned address of the pool stays set.
use dimsum.Prelude.{
  Bool, Bool-cases, List, [], ap, arith, false, get_or, get_or-set_ne, inl, inr, refl, set, some,
  suc, true, zero, ℕ, ◌-◌, ◌∷◌, ◌≡◌, ◌≢◌, ◌≤◌, ◌⊎◌,
}
use dimsum.Prelude.Bytes.{bytes_key}
use dimsum.Prelude.Maps.{find}
use dimsum.Dhcp.Address.{Addr, invalid, v4, v6, addr_key}
use dimsum.Dhcp.Lease.{Engine}
use dimsum.Dhcp.Engine.{bit_of, in_pool, is_set, mark}

abbrev pub IsMarked : List (Addr × ℕ) → List Bool → ℕ → ℕ → Type 0
IsMarked by_ip bits start end =
    (n p : ℕ)
    → find (v4 n) by_ip ≡ some p
    → start ≤ n
    → n ≤ end
    → get_or bits (n - start) true ≡ true

get_or-set-true :
    (bits : List Bool) (i j : ℕ)
    → (i ≡ j) ⊎ (get_or bits j true ≡ true)
    → get_or (set bits i true) j true ≡ true
get_or-set-true [] i j h = refl
get_or-set-true (b ∷ bits) zero zero h = refl
get_or-set-true (b ∷ bits) zero (suc j) (inl e) = absurd (omega arith)
get_or-set-true (b ∷ bits) zero (suc j) (inr h) = h
get_or-set-true (b ∷ bits) (suc i) zero (inl e) = absurd (omega arith)
get_or-set-true (b ∷ bits) (suc i) zero (inr h) = h
get_or-set-true (b ∷ bits) (suc i) (suc j) (inl e) = get_or-set-true bits i j (inl (omega arith))
get_or-set-true (b ∷ bits) (suc i) (suc j) (inr h) = get_or-set-true bits i j (inr h)

-- `mark` changes the bitmap only.
pub mark_frame :
    (e : Engine) (a : Addr) (used : Bool)
    → mark e a used ≡ record e { bitmap = (mark e a used).bitmap }
unfolding mark
mark_frame e a used = ground arith

pub mark_keeps :
    (e : Engine) (a : Addr) (j : ℕ)
    → get_or e.bitmap j true ≡ true
    → get_or (mark e a true).bitmap j true ≡ true
unfolding mark
mark_keeps e a j h = ground (arith, get_or-set-true e.bitmap (bit_of e a) j (inr h))

pub mark_sets :
    (e : Engine) (n : ℕ)
    → e.start ≤ n
    → n ≤ e.end
    → get_or (mark e (v4 n) true).bitmap (n - e.start) true ≡ true
unfolding mark
mark_sets e n lo hi =
    ground (arith, get_or-set-true e.bitmap (n - e.start) (n - e.start) (inl refl), unset e.bitmap)
  where
    unset : (bits : List Bool) → is_set bits ≡ false → get_or bits (n - e.start) true ≡ true
    unset [] h = refl
    unset (b ∷ bits) h = absurd (cc)

pub mark_clears_one :
    (e : Engine) (a : Addr) (n : ℕ)
    → v4 n ≢ a
    → e.start ≤ n
    → get_or (mark e a false).bitmap (n - e.start) true ≡ get_or e.bitmap (n - e.start) true
unfolding mark
mark_clears_one e invalid n ne lo = ground arith
mark_clears_one e (v6 m) n ne lo = ground arith
mark_clears_one e (v4 m) n ne lo = elim (Bool-cases (in_pool e (v4 m))) [
  | inr out ↦ ground arith
  | inl inside ↦ ground (
    arith,
    get_or-set_ne e.bitmap (m - e.start) (n - e.start) false true
        (λ same. ne (ap v4 (ground arith))),
  )
]
