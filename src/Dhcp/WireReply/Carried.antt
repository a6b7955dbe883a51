-- ===== src/Dhcp/WireReply/Carried.antt =====
-- Which options the replies of internal/dhcp/reply.go end up with.
use dimsum.Prelude.{
  Bool, Bool-cases, List, Option, Result, [], ap, arith, bind-ok, err, false, if◌then◌else◌, inl,
  inr, leb, length, ltb, none, not, ok, ok-injective, refl, some, sym, true, ℕ, ◌&&◌, ◌+◌, ◌==◌,
  ◌∙◌, ◌∷◌, ◌≡◌,
}
use dimsum.Prelude.Bytes.{bytes_key}
use dimsum.Prelude.Maps.{contains, delete, find, find-delete, find-insert, find-insert_self, insert}
use dimsum.Dhcp.Address.{Addr, is4, addr_key}
use dimsum.Dhcp.Settings.{Settings, is_empty}
use dimsum.Dhcp.Lease.{Reply, Request}
use dimsum.Dhcp.Packet.{Packet, nat_key}
use dimsum.Dhcp.WireReply.{
  Options, ReplyError, as_slice, bytes4, gateway_option, grant_options, identity_options, insert_if,
  invalid_gateway, lease_options, trim,
}

-- The configuration that a reply may drop
abbrev pub optional_codes : List ℕ
optional_codes = 15 ∷ 3 ∷ 6 ∷ 1 ∷ []

find-insert_other :
    (b : Bool) (k j : ℕ) (v : List ℕ) (m : Options)
    → (k == j) ≡ false
    → find j (insert_if b k v m) ≡ find j m
find-insert_other false k j v m other = refl
find-insert_other true k j v m other = ground (arith, find-insert k j v m)

-- An option that is not in the list of codes survives the trimming.
pub find-trim :
    (to_bytes : Packet → List ℕ) (limit code : ℕ) (codes : List ℕ) (p : Packet)
    → contains code codes ≡ false
    → find code (Packet.options (trim to_bytes limit codes p)) ≡ find code p.options
unfolding trim contains
find-trim to_bytes limit code [] p other = refl
find-trim to_bytes limit code (c ∷ codes) p other = elim (Bool-cases (c == code)) [
  | inl same ↦ absurd (ground arith)
  | inr apart ↦ elim (Bool-cases (leb (length (to_bytes p) + 28) limit)) [
    | inl fits ↦ rw fits refl
    | inr big ↦ rw big (
        ground (
          arith,
          find-trim to_bytes limit code codes (record p { options = delete c p.options })
              (ground arith),
          find-delete c code p.options,
        ))
  ]
]

find-if :
    (b : Bool) (j : ℕ) (x m : Options) (o : Option (List ℕ))
    → find j x ≡ o
    → find j (if b then x else m) ≡ (if b then o else find j m)
find-if true j x m o h = h
find-if false j x m o h = refl

find-if_same :
    (b : Bool) (j : ℕ) (x m : Options)
    → find j x ≡ find j m
    → find j (if b then x else m) ≡ find j m
find-if_same true j x m h = h
find-if_same false j x m h = refl

pub find-lease_options_other :
    (j : ℕ) (r : Reply) (m : Options)
    → contains j (51 ∷ 58 ∷ 59 ∷ []) ≡ false
    → find j (lease_options r m) ≡ find j m
unfolding lease_options contains
find-lease_options_other j r m other = find-if_same (is4 r.address && ltb 0 r.lease_seconds) j _ m (
    find-insert_other (leb 3 r.lease_seconds) 59 j _ _ (ground arith)
    ∙ find-insert_other (leb 3 r.lease_seconds) 58 j _ _ (ground arith)
    ∙ find-insert_other true 51 j _ m (ground arith))

pub find-lease_options :
    (r : Reply) (m : Options)
    → find 51 (lease_options r m) ≡ (
        if is4 r.address && ltb 0 r.lease_seconds then some (bytes4 r.lease_seconds) else find 51 m)
unfolding lease_options
find-lease_options r m = find-if (is4 r.address && ltb 0 r.lease_seconds) 51 _ m _ (
    find-insert_other (leb 3 r.lease_seconds) 59 51 _ _ refl
    ∙ find-insert_other (leb 3 r.lease_seconds) 58 51 _ _ refl
    ∙ find-insert_self 51 (bytes4 r.lease_seconds) m)

find-routed :
    (b : Bool) (o : Option Addr) (j : ℕ) (m m' : Options)
    → (3 == j) ≡ false
    → (if b
        then elim o as (λ x. Result ReplyError Options) [
          | none ↦ err invalid_gateway
          | some a ↦ ok (insert 3 (as_slice a) m)
        ]
        else ok m)
      ≡ ok m'
    → find j m' ≡ find j m
find-routed false o j m m' other h = ap (find j) (sym (ok-injective h))
find-routed true none j m m' other h = absurd (cc)
find-routed true (some a) j m m' other h =
    ap (find j) (sym (ok-injective h)) ∙ find-insert_other true 3 j (as_slice a) m other

find-gateway_option :
    (j : ℕ) (s : Settings) (q : Request) (m m' : Options)
    → (3 == j) ≡ false
    → gateway_option s q m ≡ ok m'
    → find j m' ≡ find j m
unfolding gateway_option
find-gateway_option j s q m m' other h =
    find-routed (q.requested_options 3) s.gateway.parsed j m m' other h

pub find-grant_options :
    (j : ℕ) (s : Settings) (server : Addr) (bits : ℕ) (r : Reply) (m m' : Options)
    → contains j optional_codes ≡ false
    → grant_options s server bits r m ≡ ok m'
    → find j m' ≡ find j (lease_options r m)
unfolding grant_options contains
find-grant_options j s server bits r m m' other h =
    let q = r.request in
    let (routed, g, e) = bind-ok (gateway_option s q _) _ h in
    ap (find j) (sym (ok-injective e))
    ∙ find-insert_other (q.requested_options 15) 15 j _ _ (ground arith)
    ∙ find-insert_other (q.requested_options 6) 6 j _ routed (ground arith)
    ∙ find-gateway_option j s q _ routed (ground arith) g
    ∙ find-insert_other (q.requested_options 1) 1 j _ _ (ground arith)

-- The options of every reply
pub find-identity_options_53 :
    (code : ℕ) (server : Addr) (q : Request)
    → find 53 (identity_options code server q) ≡ some (code ∷ [])
unfolding identity_options find insert
find-identity_options_53 code server q =
    find-insert_other (not (is_empty q.client_id)) 61 53 _ _ refl

pub find-identity_options_54 :
    (code : ℕ) (server : Addr) (q : Request)
    → find 54 (identity_options code server q) ≡ some (as_slice server)
unfolding identity_options find insert
find-identity_options_54 code server q =
    find-insert_other (not (is_empty q.client_id)) 61 54 _ _ refl

pub find-identity_options_51 :
    (code : ℕ) (server : Addr) (q : Request) → find 51 (identity_options code server q) ≡ none
unfolding identity_options find insert
find-identity_options_51 code server q =
    find-insert_other (not (is_empty q.client_id)) 61 51 _ _ refl
