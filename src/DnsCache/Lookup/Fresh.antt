-- ===== src/DnsCache/Lookup/Fresh.antt =====
-- What `lookup` serves: an entry of the asked key that is fresh enough.
use dimsum.Prelude.{
  ℕ, zero, suc, ◌+◌, ◌-◌, ◌*◌, ◌/◌, ◌%◌, ◌≤◌, ◌<◌, ◌≡◌, refl, sym, ap, ◌∙◌, subst, ◌⊎◌, inl, inr,
  Bool, true, false, ◌&&◌, ◌||◌, not, some, List, arith, ltb, leb, lt→ltb, le→leb, ◌==◌,
  if◌then◌else◌, Bool-cases, Option-cases, length, set, take, drop, take-take, Result, ok, Returns,
  Returns-bind, Returns-if, Returns-weaken,
}
use dimsum.Prelude.Bytes.{
  slice, word, slice_lem, u16-word, u32-word, span, length-span, bytes_eq, bytes_eq_iff,
}
use dimsum.DnsWire.Errors.{WireError}
use dimsum.DnsWire.Message.{Message}
use dimsum.DnsWire.Build.{put32, overwrite}
use dimsum.DnsWire.Build.Layout.{
  length-overwrite, word-overwrite_before, write16, put16_lem, length-write16, word-write16,
  word-write16_outside,
}
use dimsum.DnsCache.Arena.{ways, Slot, Shard, slot_at, age}
use dimsum.DnsCache.Key.{Key}
use dimsum.DnsCache.Put.{stored_key}
use dimsum.DnsCache.Lookup.{
  serve_aged, CacheResult, miss, client_flags, patch_ttls, write_reply, Served, serve, scan_bucket,
}

-- The slot is empty, or its blob is inside the arena and holds a key, a message and patches of TTLs
-- behind the message's header.
abbrev pub IsPatch : ℕ → List ℕ → ℕ → Type 0
IsPatch size table j = (12 ≤ word table (j * 8)) × (word table (j * 8) + 4 ≤ size)

abbrev pub blob_of : Shard → Slot → List ℕ
blob_of s x = span s.arena x.offset (x.offset + x.allocated)

abbrev pub table_of : Slot → List ℕ → List ℕ
table_of x blob = span blob (x.key_len + x.message_len) (length blob)

pub record IsReadable (s : Shard) (x : Slot) : Type 0 where
  pub inside : x.offset + x.allocated ≤ length s.arena
  pub room : x.key_len + x.message_len + x.patches * 8 ≤ x.allocated
  pub header : 12 ≤ x.message_len
  pub patches : (j : ℕ) → j < x.patches → IsPatch x.message_len (table_of x (blob_of s x)) j

-- The first twelve bytes hold the identifier, and the length is kept.
abbrev Identified : ℕ → ℕ → List ℕ → Type 0
Identified n id p = (length p ≡ n) × (word p 0 ≡ id % 65536)

put32-Identified :
    (n id : ℕ) (p : List ℕ) (off v : ℕ)
    → Identified n id p
    → 12 ≤ off
    → off + 4 ≤ n
    → Returns (Identified n id) (put32 p off v)
unfolding put32
put32-Identified n id p off v h lo hi =
    let a = write16 p off (v / 65536 % 65536) in
    let one = put16_lem p off (v / 65536 % 65536) (omega (arith, h.0)) in
    let a_len = length-write16 p off (v / 65536 % 65536) in
    let two = put16_lem a (off + 2) (v % 65536) (omega (arith, h.0, a_len)) in
    rw (one, two)
      (
        length-write16 a (off + 2) (v % 65536) ∙ a_len ∙ h.0,
        word-write16_outside a (off + 2) (v % 65536) 0 (inl (omega arith))
            ∙ word-write16_outside p off (v / 65536 % 65536) 0 (inl (omega arith))
            ∙ h.1,
      )

patch_ttls-Identified :
    (rounds n id : ℕ) (p table : List ℕ) (j elapsed : ℕ) (stale : Bool) (stale_ttl : ℕ)
    → Identified n id p
    → (j + rounds) * 8 ≤ length table
    → ((i : ℕ) → i < j + rounds → IsPatch n table i)
    → Returns (Identified n id) (patch_ttls rounds p table j elapsed stale stale_ttl)
unfolding patch_ttls
patch_ttls-Identified zero n id p table j elapsed stale stale_ttl h fits patches = h
patch_ttls-Identified (suc rounds) n id p table j elapsed stale stale_ttl h fits patches =
    let w = patches j (omega arith) in
    let off = u16-word {E = WireError} table (j * 8) (omega arith) in
    let ttl = u32-word {E = WireError} table (j * 8 + 4) (omega arith) in
    rw (off, ttl)
      (Returns-bind (Identified n id) (Identified n id) (put32 p (word table (j * 8)) _) _
        (put32-Identified n id p (word table (j * 8)) _ h (w.0) (w.1))
        λ q e k.
          patch_ttls-Identified rounds n id q table (j + 1) elapsed stale stale_ttl k (omega arith)
            (λ i lt. patches i (omega arith)))

length-blob : (s : Shard) (x : Slot) → IsReadable s x → length (blob_of s x) ≡ x.allocated
length-blob s x r =
    omega (
      arith,
      r.inside,
      length-span s.arena x.offset (x.offset + x.allocated) (omega arith) r.inside,
    )

write_reply-Identified :
    (s : Shard) (x : Slot) (dst : List ℕ) (request : Message) (elapsed : ℕ) (stale : Bool)
    (stale_ttl : ℕ)
    → IsReadable s x
    → x.message_len ≤ length dst
    → Returns
        (Identified (length dst) request.question.header.id)
        (write_reply dst request (blob_of s x) x elapsed stale stale_ttl)
unfolding write_reply
write_reply-Identified s x dst request elapsed stale stale_ttl r enough =
    let blob = blob_of s x in
    let n = length-blob s x r in
    let mid = x.key_len + x.message_len in
    let id = request.question.header.id in
    let cut =
      slice_lem {E = WireError} blob x.key_len mid (omega arith) (omega (arith, n, r.room)) in
    let a = overwrite dst 0 (span blob x.key_len mid) in
    let a_len = length-overwrite dst 0 (span blob x.key_len mid) in
    let one = put16_lem a 0 id (omega (arith, a_len, r.header)) in
    let b = write16 a 0 id in
    let b_len = length-write16 a 0 id in
    let read = u16-word {E = WireError} b 2 (omega (arith, a_len, b_len, r.header)) in
    let flags = client_flags (word b 2) request.question.header.flags in
    let two = put16_lem b 2 flags (omega (arith, a_len, b_len, r.header)) in
    let c = write16 b 2 flags in
    let c_len = length-write16 b 2 flags in
    let rest =
      slice_lem {E = WireError} blob mid (length blob) (omega (arith, n, r.room)) (omega arith) in
    let d = overwrite c 12 request.question.name.wire in
    let d_len = length-overwrite c 12 request.question.name.wire in
    let id_kept : word d 0 ≡ id % 65536 =
      word-overwrite_before c 12 request.question.name.wire 0 (omega arith)
      ∙ word-write16_outside b 2 flags 0 (inl (omega arith))
      ∙ word-write16 a 0 id (omega (arith, a_len, r.header)) in
    let table_len : length (table_of x blob) ≡ length blob - mid =
      length-span blob mid (length blob) (omega (arith, n, r.room)) (omega arith) in
    let wide : leb 12 (length c) ≡ true =
      le→leb 12 (length c) (omega (arith, a_len, b_len, c_len, r.header)) in
    rw (cut, one, read, two, wide, rest)
      (patch_ttls-Identified x.patches (length dst) id d (table_of x blob) 0 elapsed stale stale_ttl
        (d_len ∙ c_len ∙ b_len ∙ a_len, id_kept) (omega (arith, table_len, n, r.room))
        (λ j lt. let w = r.patches j (omega arith) in (w.0, omega (arith, w.1))))

-- A hit on slot `x`: its age decides whether it is fresh, or stale and still allowed.
abbrev pub FreshEnough : Slot → ℕ → ℕ → CacheResult → Type 0
FreshEnough x now max_stale r =
    (elapsed : ℕ) × (age now x.inserted ≡ some elapsed)
    × (((r.stale ≡ false) × (elapsed < x.lifetime))
        ⊎ ((r.stale ≡ true)
            × (x.negative ≡ false)
            × (r.stale_age ≡ elapsed - x.lifetime)
            × (r.stale_age < max_stale)))

abbrev pub Reply : Slot → Message → List ℕ → ℕ → ℕ → Served → Type 0
Reply x request dst now max_stale (s', dst', r) =
    ((r ≡ miss) × (dst' ≡ dst))
    ⊎ ((r.hit ≡ true)
        × (r.size ≡ x.message_len)
        × (r.size ≤ length dst)
        × (r.negative ≡ x.negative)
        × Identified (length dst) request.question.header.id dst'
        × FreshEnough x now max_stale r)

serve_aged-Reply :
    (s : Shard) (i : ℕ) (request : Message) (dst : List ℕ) (now elapsed max_stale stale_ttl : ℕ)
    → IsReadable s (slot_at s i)
    → age now (slot_at s i).inserted ≡ some elapsed
    → Returns
        (Reply (slot_at s i) request dst now max_stale)
        (serve_aged s i request dst (blob_of s (slot_at s i)) elapsed max_stale stale_ttl)
unfolding serve_aged
serve_aged-Reply s i request dst now elapsed max_stale stale_ttl r e =
    let x = slot_at s i in
    let P = Reply x request dst now max_stale in
    let stale = leb x.lifetime elapsed in
    let stale_age = if stale then elapsed - x.lifetime else 0 in
    Returns-if P (stale && (x.negative || leb max_stale stale_age)) _ _ (λ _. inl (refl, refl))
      λ usable.
        Returns-if P (ltb (length dst) x.message_len) _ _ (λ _. inl (refl, refl))
          λ enough.
            let result : CacheResult = record {
              hit = true;
              negative = x.negative;
              stale = stale;
              stale_age = stale_age;
              size = x.message_len;
            } in
            let fresh : FreshEnough x now max_stale result = (
              elapsed,
              e,
              elim (Bool-cases stale) [
                | inl t ↦ inr (t, ground arith, ground arith, ground arith)
                | inr f ↦ inl (f, ground arith)
              ],
            ) in
            let kept : Shard = record s {
              slots = set s.slots i (record x { referenced = true });
            } in
            let last : List ℕ → Result WireError Served = λ p. ok (kept, p, result) in
            Returns-bind P (Identified (length dst) request.question.header.id)
              (write_reply dst request (blob_of s x) x elapsed stale stale_ttl) last
              (write_reply-Identified s x dst request elapsed stale stale_ttl r (ground arith))
              λ p h k. inr (refl, refl, ground arith, refl, k, fresh)

serve-Reply :
    (s : Shard) (i : ℕ) (request : Message) (dst : List ℕ) (now max_stale stale_ttl : ℕ)
    → IsReadable s (slot_at s i)
    → Returns
        (Reply (slot_at s i) request dst now max_stale)
        (serve s i request dst (blob_of s (slot_at s i)) now max_stale stale_ttl)
unfolding serve
serve-Reply s i request dst now max_stale stale_ttl r =
    let x = slot_at s i in
    let P = Reply x request dst now max_stale in
    let blob = blob_of s x in
    elim (Option-cases (age now x.inserted)) [
      | inl e ↦
          let q : serve s i request dst blob now max_stale stale_ttl ≡ ok (s, dst, miss) = cc in
          subst (Returns P) (sym q) (inl (refl, refl))
      | inr (elapsed, e) ↦
          let q : serve s i request dst blob now max_stale stale_ttl
              ≡ serve_aged s i request dst blob elapsed max_stale stale_ttl =
            cc in
          subst (Returns P) (sym q)
            (serve_aged-Reply s i request dst now elapsed max_stale stale_ttl r e)
    ]

-- A miss, or a reply from a slot of the bucket that holds the asked key.
abbrev pub Looked : Shard → ℕ → Key → ℕ → Message → List ℕ → ℕ → ℕ → Served → Type 0
Looked s first k hash request dst now max_stale out =
    ((out.2 ≡ miss) × (out.1 ≡ dst))
    ⊎ ((i : ℕ) × (first ≤ i)
        × (i < first + ways)
        × (0 < (slot_at s i).allocated)
        × ((slot_at s i).hash ≡ hash)
        × (stored_key s (slot_at s i) ≡ take k.size k.bytes)
        × Reply (slot_at s i) request dst now max_stale out)

key_of_blob :
    (s : Shard) (x : Slot) → IsReadable s x → span (blob_of s x) 0 x.key_len ≡ stored_key s x
key_of_blob s x r =
    let a : x.key_len - 0 ≡ x.key_len = omega arith in
    let b : x.offset + x.allocated - x.offset ≡ x.allocated = omega arith in
    let c : x.offset + x.key_len - x.offset ≡ x.key_len = omega arith in
    rw (a, b, c) (take-take x.key_len x.allocated (drop x.offset s.arena) (omega (arith, r.room)))

pub scan_bucket-Looked :
    (rounds : ℕ) (s : Shard) (first i : ℕ) (k : Key) (hash : ℕ) (request : Message) (dst : List ℕ)
    (now max_stale stale_ttl : ℕ)
    → ((j : ℕ) → ((slot_at s j).allocated ≡ 0) ⊎ IsReadable s (slot_at s j))
    → first ≤ i
    → i + rounds ≤ first + ways
    → first + ways ≤ length s.slots
    → Returns
        (Looked s first k hash request dst now max_stale)
        (scan_bucket rounds s i k hash request dst now max_stale stale_ttl)
unfolding scan_bucket
scan_bucket-Looked zero s first i k hash request dst now max_stale stale_ttl h lo hi fits =
    inl (refl, refl)
scan_bucket-Looked (suc rounds) s first i k hash request dst now max_stale stale_ttl h lo hi fits =
    let x = slot_at s i in
    let P = Looked s first k hash request dst now max_stale in
    let rest =
      scan_bucket-Looked rounds s first (i + 1) k hash request dst now max_stale stale_ttl h
        (omega arith) (omega arith) fits in
    let here : ltb i (length s.slots) ≡ true = lt→ltb i (length s.slots) (omega arith) in
    elim (Bool-cases (x.allocated == 0 || not (x.hash == hash) || not (x.key_len == k.size))) [
      | inl other ↦
          let q : scan_bucket (suc rounds) s i k hash request dst now max_stale stale_ttl
              ≡ scan_bucket rounds s (i + 1) k hash request dst now max_stale stale_ttl =
            cc in
          subst (Returns P) (sym q) rest
      | inr same ↦
          let live : 0 < x.allocated = ground arith in
          let r : IsReadable s x = elim (h i) [ inl z ↦ absurd (omega (arith, z)) | inr r ↦ r ] in
          let blob = blob_of s x in
          let own = stored_key s x in
          let cut : slice {E = WireError} s.arena x.offset (x.offset + x.allocated) ≡ ok blob =
            slice_lem s.arena x.offset (x.offset + x.allocated) (omega arith) r.inside in
          let key : slice {E = WireError} blob 0 x.key_len ≡ ok own =
            slice_lem blob 0 x.key_len (omega arith) (omega (arith, length-blob s x r, r.room))
            ∙ ap ok (key_of_blob s x r) in
          elim (Bool-cases (bytes_eq own (take k.size k.bytes))) [
            | inl hit ↦
                let q : scan_bucket (suc rounds) s i k hash request dst now max_stale stale_ttl
                    ≡ serve s i request dst blob now max_stale stale_ttl =
                  cc in
                let same_hash : x.hash ≡ hash = ground arith in
                subst (Returns P) (sym q) (
                  Returns-weaken (Reply x request dst now max_stale) P
                    (serve s i request dst blob now max_stale stale_ttl)
                    (serve-Reply s i request dst now max_stale stale_ttl r)
                    (λ out w. inr (
                      i,
                      lo,
                      omega arith,
                      live,
                      same_hash,
                      (bytes_eq_iff own (take k.size k.bytes)).0 hit,
                      w,
                    )))
            | inr no_hit ↦
                let q : scan_bucket (suc rounds) s i k hash request dst now max_stale stale_ttl
                    ≡ scan_bucket rounds s (i + 1) k hash request dst now max_stale stale_ttl =
                  cc in
                subst (Returns P) (sym q) rest
          ]
    ]
