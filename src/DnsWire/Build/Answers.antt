-- ===== src/DnsWire/Build/Answers.antt =====
-- A reply has the request's identifier and question, and stays within its buffer.
use dimsum.Prelude.{
  subst, sym, true, false, ◌⊎◌, ◌==◌, ℕ, zero, suc, ◌+◌, ◌-◌, ◌/◌, ◌%◌, ◌^◌, ◌≤◌, ◌<◌, ◌≡◌, refl,
  ap, ◌∙◌, inl, inr, Bool, ◌&&◌, ◌||◌, not, List, arith, ltb, if◌then◌else◌, length, replicate,
  Result, ok, err, ◌>>=◌, Returns, Returns-bind, Returns-if, Returns-weaken,
}
use dimsum.Prelude.Bytes.{byte, word, bit}
use dimsum.DnsWire.Errors.{WireError}
use dimsum.DnsWire.Header.{Question, opcode_of}
use dimsum.DnsWire.Record.{Edns}
use dimsum.DnsWire.Message.{Message}
use dimsum.DnsWire.Build.{
  Reply, put8, put16, put32, overwrite, null_size, reply_flags, put_answer, put_opt, reply_size,
  put_question, build_reply,
}
use dimsum.DnsWire.Build.Layout.{
  Frozen, Allowed, length-overwrite, byte-overwrite_outside, byte-overwrite_inside, write16,
  put16_lem, length-write16, byte-write16_outside, word-write16, word-write16_outside,
  word-overwrite_before, put8-Frozen, put16-Frozen, put32-Frozen,
}

-- The buffer behind the question's name, before the type is written.
abbrev named : List ℕ → Question → Reply → List ℕ
named p q reply =
    overwrite (write16 (write16 (write16 p 0 q.header.id) 2 (reply_flags q.header.flags reply)) 4 1)
      12 q.name.wire

length-named : (p : List ℕ) (q : Question) (reply : Reply) → length (named p q reply) ≡ length p
length-named p q reply =
    length-overwrite _ 12 q.name.wire
    ∙ length-write16 _ 4 1
    ∙ length-write16 _ 2 (reply_flags q.header.flags reply)
    ∙ length-write16 p 0 q.header.id

-- The buffer behind the question.
abbrev asked : List ℕ → Question → Reply → List ℕ
asked p q reply =
    write16 (write16 (named p q reply) (16 + length q.name.wire - 4) q.qtype)
      (16 + length q.name.wire - 2) q.qclass

length-asked : (p : List ℕ) (q : Question) (reply : Reply) → length (asked p q reply) ≡ length p
length-asked p q reply =
    length-write16 _ _ q.qclass ∙ length-write16 _ _ q.qtype ∙ length-named p q reply

-- The bits of the flags of a reply: QR, the opcode, AA, TC, RD, RA, Z, AD, CD and RCODE.
pub record IsFlagged (flags : ℕ) (reply : Reply) (w : ℕ) : Type 0 where
  pub response : bit w 15 ≡ true
  pub opcode : opcode_of w ≡ opcode_of flags
  pub authoritative : bit w 10 ≡ false
  pub truncated : bit w 9 ≡ reply.truncated
  pub desired : bit w 8 ≡ bit flags 8
  pub available : bit w 7 ≡ reply.recursion_available
  pub reserved : bit w 6 ≡ false
  pub authentic : bit w 5 ≡ false
  pub disabled : bit w 4 ≡ bit flags 4
  pub rcode : w % 16 ≡ reply.rcode % 16

reply_flags-IsFlagged :
    (flags : ℕ) (reply : Reply) → IsFlagged flags reply (reply_flags flags reply % 65536)
reply_flags-IsFlagged flags reply = record {
  response = ground arith;
  opcode = ground arith;
  authoritative = ground arith;
  truncated = ground arith;
  desired = ground arith;
  available = ground arith;
  reserved = ground arith;
  authentic = ground arith;
  disabled = ground arith;
  rcode = ground arith;
}

-- What the header and the question of a reply say. `answers` and `additionals` count the records.
pub record Answers (q : Question) (reply : Reply) (answers additionals : ℕ) (p : List ℕ)
    : Type 0 where
  pub id : word p 0 ≡ q.header.id % 65536
  pub flags : IsFlagged q.header.flags reply (word p 2)
  pub questions : word p 4 ≡ 1
  pub answered : word p 6 ≡ answers
  pub authorities : word p 8 ≡ 0
  pub added : word p 10 ≡ additionals
  pub name : (k : ℕ) → k < length q.name.wire → byte p (12 + k) ≡ byte q.name.wire k
  pub qtype : word p (12 + length q.name.wire) ≡ q.qtype % 65536
  pub qclass : word p (14 + length q.name.wire) ≡ q.qclass % 65536

named_early :
    (p : List ℕ) (q : Question) (reply : Reply) (k : ℕ)
    → 6 ≤ k
    → k + 2 ≤ 12
    → word (named p q reply) k ≡ word p k
named_early p q reply k lo hi =
    let flags = reply_flags q.header.flags reply in
    word-overwrite_before _ 12 q.name.wire k (omega arith)
    ∙ word-write16_outside _ 4 1 k (inr (omega arith))
    ∙ word-write16_outside _ 2 flags k (inr (omega arith))
    ∙ word-write16_outside p 0 q.header.id k (inr (omega arith))

-- The two writes behind the name leave what is before them alone.
asked_early :
    (p : List ℕ) (q : Question) (reply : Reply) (k : ℕ)
    → k + 2 ≤ 12 + length q.name.wire
    → word (asked p q reply) k ≡ word (named p q reply) k
asked_early p q reply k h =
    word-write16_outside _ (16 + length q.name.wire - 2) q.qclass k (inl (omega arith))
    ∙ word-write16_outside _ (16 + length q.name.wire - 4) q.qtype k (inl (omega arith))

asked-Answers :
    (p : List ℕ) (q : Question) (reply : Reply)
    → 16 + length q.name.wire ≤ length p
    → ((k : ℕ) → k < 12 → byte p k ≡ 0)
    → Answers q reply 0 0 (asked p q reply)
asked-Answers p q reply h zeros =
    let n = length q.name.wire in
    let flags = reply_flags q.header.flags reply in
    let a = write16 p 0 q.header.id in
    let b = write16 a 2 flags in
    let c = write16 b 4 1 in
    let d = named p q reply in
    let e = write16 d (16 + n - 4) q.qtype in
    let a_len = length-write16 p 0 q.header.id in
    let b_len = length-write16 a 2 flags in
    let c_len = length-write16 b 4 1 in
    let d_len = length-named p q reply in
    let e_len = length-write16 d (16 + n - 4) q.qtype in
    let t : 12 + n ≡ 16 + n - 4 = omega arith in
    let u : 14 + n ≡ 16 + n - 2 = omega arith in
    let flag_word : word (asked p q reply) 2 ≡ flags % 65536 =
      asked_early p q reply 2 (omega arith)
      ∙ word-overwrite_before c 12 q.name.wire 2 (omega arith)
      ∙ word-write16_outside b 4 1 2 (inl (omega arith))
      ∙ word-write16 a 2 flags (omega (arith, a_len)) in
    record {
      id =
          asked_early p q reply 0 (omega arith)
          ∙ word-overwrite_before c 12 q.name.wire 0 (omega arith)
          ∙ word-write16_outside b 4 1 0 (inl (omega arith))
          ∙ word-write16_outside a 2 flags 0 (inl (omega arith))
          ∙ word-write16 p 0 q.header.id (omega arith);
      flags =
          subst (IsFlagged q.header.flags reply) (sym flag_word)
            (reply_flags-IsFlagged q.header.flags reply);
      questions =
          asked_early p q reply 4 (omega arith)
          ∙ word-overwrite_before c 12 q.name.wire 4 (omega arith)
          ∙ word-write16 b 4 1 (omega (arith, a_len, b_len));
      answered =
          asked_early p q reply 6 (omega arith)
          ∙ named_early p q reply 6 (omega arith) (omega arith)
          ∙ omega (arith, zeros 6 (omega arith), zeros 7 (omega arith));
      authorities =
          asked_early p q reply 8 (omega arith)
          ∙ named_early p q reply 8 (omega arith) (omega arith)
          ∙ omega (arith, zeros 8 (omega arith), zeros 9 (omega arith));
      added =
          asked_early p q reply 10 (omega arith)
          ∙ named_early p q reply 10 (omega arith) (omega arith)
          ∙ omega (arith, zeros 10 (omega arith), zeros 11 (omega arith));
      name = λ k lt.
          byte-write16_outside e (16 + n - 2) q.qclass (12 + k) (λ x. omega (arith, x))
            (λ x. omega (arith, x))
          ∙ byte-write16_outside d (16 + n - 4) q.qtype (12 + k) (λ x. omega (arith, x))
              (λ x. omega (arith, x))
          ∙ byte-overwrite_inside c 12 q.name.wire k (omega (arith, a_len, b_len, c_len)) lt;
      qtype =
          ap (word (asked p q reply)) t
          ∙ word-write16_outside e (16 + n - 2) q.qclass (16 + n - 4) (inl (omega arith))
          ∙ word-write16 d (16 + n - 4) q.qtype (omega (arith, d_len));
      qclass =
          ap (word (asked p q reply)) u
          ∙ word-write16 e (16 + n - 2) q.qclass (omega (arith, d_len, e_len));
    }

-- The frozen bytes of an answer stay an answer.
Frozen-Answers :
    (q : Question) (reply : Reply) (answers additionals low high : ℕ) (p₀ p : List ℕ)
    → 16 + length q.name.wire ≤ low
    → Frozen low high p₀ p
    → Answers q reply answers additionals p₀
    → Answers q reply answers additionals p
Frozen-Answers q reply answers additionals low high p₀ p le f a =
    let same : (k : ℕ) → k + 2 ≤ 16 + length q.name.wire → word p k ≡ word p₀ k =
      λ k lt. omega (arith, f.1 k (inl (omega arith)), f.1 (k + 1) (inl (omega arith))) in
    record {
      id = same 0 (omega arith) ∙ a.id;
      flags = subst (IsFlagged q.header.flags reply) (sym (same 2 (omega arith))) a.flags;
      questions = same 4 (omega arith) ∙ a.questions;
      answered = same 6 (omega arith) ∙ a.answered;
      authorities = same 8 (omega arith) ∙ a.authorities;
      added = same 10 (omega arith) ∙ a.added;
      name = λ k lt. f.1 (12 + k) (inl (omega arith)) ∙ a.name k lt;
      qtype = same (12 + length q.name.wire) (omega arith) ∙ a.qtype;
      qclass = same (14 + length q.name.wire) (omega arith) ∙ a.qclass;
    }

-- A count of records is written.
counted-Answers :
    (q : Question) (reply : Reply) (additionals : ℕ) (p : List ℕ)
    → 12 ≤ length p
    → Answers q reply 0 additionals p
    → Answers q reply 1 additionals (write16 p 6 1)
counted-Answers q reply additionals p h a =
    let same : (k : ℕ) → (k + 2 ≤ 6) ⊎ (8 ≤ k) → word (write16 p 6 1) k ≡ word p k =
      λ k w. word-write16_outside p 6 1 k w in
    record {
      id = same 0 (inl (omega arith)) ∙ a.id;
      flags = subst (IsFlagged q.header.flags reply) (sym (same 2 (inl (omega arith)))) a.flags;
      questions = same 4 (inl (omega arith)) ∙ a.questions;
      answered = word-write16 p 6 1 (omega arith);
      authorities = same 8 (inr (omega arith)) ∙ a.authorities;
      added = same 10 (inr (omega arith)) ∙ a.added;
      name = λ k lt.
          byte-write16_outside p 6 1 (12 + k) (λ x. omega (arith, x)) (λ x. omega (arith, x))
          ∙ a.name k lt;
      qtype = same (12 + length q.name.wire) (inr (omega arith)) ∙ a.qtype;
      qclass = same (14 + length q.name.wire) (inr (omega arith)) ∙ a.qclass;
    }

extended-Answers :
    (q : Question) (reply : Reply) (answers : ℕ) (p : List ℕ)
    → 12 ≤ length p
    → Answers q reply answers 0 p
    → Answers q reply answers 1 (write16 p 10 1)
extended-Answers q reply answers p h a =
    let same : (k : ℕ) → (k + 2 ≤ 10) ⊎ (12 ≤ k) → word (write16 p 10 1) k ≡ word p k =
      λ k w. word-write16_outside p 10 1 k w in
    record {
      id = same 0 (inl (omega arith)) ∙ a.id;
      flags = subst (IsFlagged q.header.flags reply) (sym (same 2 (inl (omega arith)))) a.flags;
      questions = same 4 (inl (omega arith)) ∙ a.questions;
      answered = same 6 (inl (omega arith)) ∙ a.answered;
      authorities = same 8 (inl (omega arith)) ∙ a.authorities;
      added = word-write16 p 10 1 (omega arith);
      name = λ k lt.
          byte-write16_outside p 10 1 (12 + k) (λ x. omega (arith, x)) (λ x. omega (arith, x))
          ∙ a.name k lt;
      qtype = same (12 + length q.name.wire) (inr (omega arith)) ∙ a.qtype;
      qclass = same (14 + length q.name.wire) (inr (omega arith)) ∙ a.qclass;
    }

module _ (low high : ℕ) (p₀ : List ℕ) (fits : high ≤ length p₀) where
  then_put16 :
      {A : Type 0} (P : A → Type 0) (p : List ℕ) (off v : ℕ) (f : List ℕ → Result WireError A)
      → Frozen low high p₀ p
      → Allowed low high off 2
      → ((p' : List ℕ) → Frozen low high p₀ p' → Returns P (f p'))
      → Returns P (put16 p off v >>= f)
  then_put16 P p off v f k a rest =
      Returns-bind P (Frozen low high p₀) (put16 p off v) f
        (put16-Frozen low high p₀ fits p off v k a) λ p' e k'. rest p' k'

-- The records are written behind the question; only their count is in the header.
put_answer-Frozen :
    (low high : ℕ) (p : List ℕ) (off size : ℕ) (q : Question) (reply : Reply)
    → 12 ≤ low
    → high ≤ length p
    → low ≤ off
    → off + 12 ≤ high
    → Returns (Frozen low high (write16 p 6 1)) (put_answer p off q reply size)
unfolding put_answer
put_answer-Frozen low high p off size q reply le fits lo hi =
    let d = write16 p 6 1 in
    let d_len = length-write16 p 6 1 in
    let Kept = Frozen low high d in
    let one = put16_lem p 6 1 (omega arith) in
    let room : high ≤ length d = omega (arith, d_len) in
    rw one (
      then_put16 low high d room Kept d off 0xc00c _ (refl, λ k w. refl) (omega arith, omega arith)
        λ p k.
          then_put16 low high d room Kept p (off + 2) q.qtype _ k (omega arith, omega arith)
            λ p k.
              then_put16 low high d room Kept p (off + 4) 1 _ k (omega arith, omega arith)
                λ p k.
                  Returns-bind Kept Kept (put32 p (off + 6) (reply.ttl % 2 ^ 32)) _
                    (put32-Frozen low high d room p (off + 6) (reply.ttl % 2 ^ 32) k
                      (omega arith, omega arith))
                    λ p e k.
                      put16-Frozen low high d room p (off + 10) size k (omega arith, omega arith))

put_opt-Frozen :
    (low high : ℕ) (p : List ℕ) (off limit : ℕ) (e : Edns) (reply : Reply)
    → 12 ≤ low
    → high ≤ length p
    → low ≤ off
    → off + 11 ≤ high
    → Returns (Frozen low high (write16 p 10 1)) (put_opt p off e reply limit)
unfolding put_opt
put_opt-Frozen low high p off limit e reply le fits lo hi =
    let d = write16 p 10 1 in
    let d_len = length-write16 p 10 1 in
    let Kept = Frozen low high d in
    let one = put16_lem p 10 1 (omega arith) in
    let room : high ≤ length d = omega (arith, d_len) in
    rw one (
      then_put16 low high d room Kept d (off + 1) 41 _ (refl, λ k w. refl)
        (omega arith, omega arith)
        λ p k.
          then_put16 low high d room Kept p (off + 3) _ _ k (omega arith, omega arith)
            λ p k.
              Returns-bind Kept Kept (put8 p (off + 5) (reply.rcode / 16)) _
                (put8-Frozen low high d room p (off + 5) (reply.rcode / 16) k
                  (omega arith, omega arith))
                λ p h k.
                  Returns-if Kept e.dnssec_ok (put16 p (off + 7) 0x8000) (ok p)
                    (λ _.
                      put16-Frozen low high d room p (off + 7) 0x8000 k (omega arith, omega arith))
                    (λ _. k))

put_question-asked :
    (p : List ℕ) (q : Question) (reply : Reply)
    → 16 + length q.name.wire ≤ length p
    → put_question p q reply ≡ ok (asked p q reply)
unfolding put_question
put_question-asked p q reply fits =
    let n = length q.name.wire in
    let flags = reply_flags q.header.flags reply in
    let a = write16 p 0 q.header.id in
    let b = write16 a 2 flags in
    let d = named p q reply in
    let a_len = length-write16 p 0 q.header.id in
    let b_len = length-write16 a 2 flags in
    let d_len = length-named p q reply in
    let e_len = length-write16 d (16 + n - 4) q.qtype in
    let one = put16_lem p 0 q.header.id (omega arith) in
    let two = put16_lem a 2 flags (omega (arith, a_len)) in
    let three = put16_lem b 4 1 (omega (arith, a_len, b_len)) in
    let four = put16_lem d (16 + n - 4) q.qtype (omega (arith, d_len)) in
    let five =
      put16_lem (write16 d (16 + n - 4) q.qtype) (16 + n - 2) q.qclass
        (omega (arith, d_len, e_len)) in
    rw (one, two, three, four) five

-- The size of the answer of a null reply: a record of four or sixteen bytes of zeros, for an address
-- of class IN that is asked for without an error.
abbrev pub answer_size : Question → Reply → ℕ
answer_size q reply =
    if reply.null_answer && not reply.truncated && reply.rcode == 0 && q.qclass == 1
    then if q.qtype == 1 then 16 else if q.qtype == 28 then 28 else 0
    else 0

null_size-answer_size :
    (q : Question) (reply : Reply)
    → (if ltb 0 (null_size q reply) then 12 + null_size q reply else 0) ≡ answer_size q reply
unfolding null_size
null_size-answer_size q reply = ground arith

null_size_some :
    (q : Question) (reply : Reply) → ltb 0 (null_size q reply) ≡ ltb 0 (answer_size q reply)
unfolding null_size
null_size_some q reply = ground arith

-- A record or none.
abbrev pub one_if : Bool → ℕ
one_if b = if b then 1 else 0

-- What a built reply is, for a buffer `dst`: the first `n` bytes of `p` are the reply and the rest
-- of the buffer is as before.
pub record IsReply (dst : List ℕ) (m : Message) (reply : Reply) (r : ℕ × List ℕ) : Type 0 where
  pub size :
      r.0
      ≡ 16
        + length m.question.name.wire
        + answer_size m.question reply
        + (if m.edns.present then 11 else 0)
  pub inside : r.0 ≤ length dst
  pub length_kept : length r.1 ≡ length dst
  pub rest_kept : (k : ℕ) → r.0 ≤ k → byte r.1 k ≡ byte dst k
  pub answers :
      Answers m.question reply
        (one_if (ltb 0 (answer_size m.question reply)))
        (one_if m.edns.present)
        r.1

-- A stage of the writing, with the counts so far.
abbrev Stage : List ℕ → ℕ → Question → Reply → ℕ → ℕ → List ℕ → Type 0
Stage dst size q reply answers additionals p =
    (length p ≡ length dst)
    × ((k : ℕ) → size ≤ k → byte p k ≡ byte dst k)
    × Answers q reply answers additionals p

asked_rest :
    (p : List ℕ) (q : Question) (reply : Reply) (k : ℕ)
    → 16 + length q.name.wire ≤ k
    → byte (asked p q reply) k ≡ byte p k
asked_rest p q reply k h =
    let flags = reply_flags q.header.flags reply in
    byte-write16_outside _ _ q.qclass k (λ e. omega (arith, e)) (λ e. omega (arith, e))
    ∙ byte-write16_outside _ _ q.qtype k (λ e. omega (arith, e)) (λ e. omega (arith, e))
    ∙ byte-overwrite_outside _ 12 q.name.wire k (inr (omega arith))
    ∙ byte-write16_outside _ 4 1 k (λ e. omega (arith, e)) (λ e. omega (arith, e))
    ∙ byte-write16_outside _ 2 flags k (λ e. omega (arith, e)) (λ e. omega (arith, e))
    ∙ byte-write16_outside p 0 q.header.id k (λ e. omega (arith, e)) (λ e. omega (arith, e))

length-replicate : (n v : ℕ) → length (replicate n v) ≡ n
length-replicate zero v = refl
length-replicate (suc n) v = ap suc (length-replicate n v)

byte-replicate : (n k : ℕ) → byte (replicate n 0) k ≡ 0
byte-replicate zero k = refl
byte-replicate (suc n) zero = refl
byte-replicate (suc n) (suc k) = byte-replicate n k

module _ (dst : List ℕ) (q : Question) (reply : Reply) (size : ℕ) (fits : size ≤ length dst)
    (room : 16 + length q.name.wire ≤ size) where
  abbrev cleared : List ℕ
  cleared = overwrite dst 0 (replicate size 0)

  asked-Stage : Stage dst size q reply 0 0 (asked cleared q reply)
  asked-Stage =
      let n = length-overwrite dst 0 (replicate size 0) in
      let r = length-replicate size 0 in
      (
        length-asked cleared q reply ∙ n,
        (λ k h.
            asked_rest cleared q reply k (omega arith)
            ∙ byte-overwrite_outside dst 0 (replicate size 0) k (inr (omega (arith, r)))),
        asked-Answers cleared q reply (omega (arith, n)) (λ k lt.
            let z : k ≡ 0 + k = omega arith in
            ap (byte cleared) z
            ∙ byte-overwrite_inside dst 0 (replicate size 0) k (omega (arith, r)) (omega (arith, r))
            ∙ byte-replicate size k),
      )

  put_answer-Stage :
      (p : List ℕ) (answer : ℕ)
      → 28 + length q.name.wire ≤ size
      → Stage dst size q reply 0 0 p
      → Returns (Stage dst size q reply 1 0) (put_answer p (16 + length q.name.wire) q reply answer)
  put_answer-Stage p answer enough (n, rest, a) =
      let low = 16 + length q.name.wire in
      let d_len = length-write16 p 6 1 in
      Returns-weaken (Frozen low size (write16 p 6 1)) (Stage dst size q reply 1 0)
        (put_answer p low q reply answer)
        (put_answer-Frozen low size p low answer q reply (omega arith) (omega (arith, n))
          (omega arith) (omega arith))
        λ p' f. (
          f.0 ∙ d_len ∙ n,
          λ k h.
              f.1 k (inr h)
              ∙ byte-write16_outside p 6 1 k (λ x. omega (arith, x)) (λ x. omega (arith, x))
              ∙ rest k h,
          Frozen-Answers q reply 1 0 low size (write16 p 6 1) p' (omega arith) f
              (counted-Answers q reply 0 p (omega (arith, n)) a),
        )

  put_opt-Stage :
      (p : List ℕ) (answers off limit : ℕ) (e : Edns)
      → 16 + length q.name.wire ≤ off
      → off + 11 ≤ size
      → Stage dst size q reply answers 0 p
      → Returns (Stage dst size q reply answers 1) (put_opt p off e reply limit)
  put_opt-Stage p answers off limit e lo hi (n, rest, a) =
      let low = 16 + length q.name.wire in
      let d_len = length-write16 p 10 1 in
      Returns-weaken (Frozen low size (write16 p 10 1)) (Stage dst size q reply answers 1)
        (put_opt p off e reply limit)
        (put_opt-Frozen low size p off limit e reply (omega arith) (omega (arith, n)) lo hi)
        λ p' f. (
          f.0 ∙ d_len ∙ n,
          λ k h.
              f.1 k (inr h)
              ∙ byte-write16_outside p 10 1 k (λ x. omega (arith, x)) (λ x. omega (arith, x))
              ∙ rest k h,
          Frozen-Answers q reply answers 1 low size (write16 p 10 1) p' (omega arith) f
              (extended-Answers q reply answers p (omega (arith, n)) a),
        )

-- The OPT record is behind the answer and inside the reply.
opt_behind : (end answer : ℕ) → end ≤ (if ltb 0 answer then end + (12 + answer) else end)
opt_behind end answer = ground arith

opt_fits :
    (n answer : ℕ) (present : Bool)
    → present ≡ true
    → (if ltb 0 answer then 16 + n + (12 + answer) else 16 + n) + 11
      ≤ 16 + n + (if ltb 0 answer then 12 + answer else 0) + (if present then 11 else 0)
opt_fits n answer present h = ground arith

answer_fits :
    (n answer : ℕ) (present : Bool)
    → ltb 0 answer ≡ true
    → 28 + n ≤ 16 + n + (if ltb 0 answer then 12 + answer else 0) + (if present then 11 else 0)
answer_fits n answer present h = ground arith

-- `BuildReply` ends and never writes out of range. If it accepts, it uses just the number of bytes
-- that its header, question, null answer and OPT record take, and leaves the rest of the buffer
-- alone. The reply has the request's identifier, opcode, RD and CD, and its question: the name, the
-- type and the class. QR is set, AA, Z and AD are clear, TC, RA and the lower bits of the response
-- code are as asked for. The header counts one question, an answer if there is a null answer, no
-- authority record, and an additional record if the request has EDNS.
pub build_reply-IsReply :
    (dst : List ℕ) (m : Message) (reply : Reply) (limit : ℕ)
    → Returns (IsReply dst m reply) (build_reply dst m reply limit)
unfolding build_reply
build_reply-IsReply dst m reply limit =
    let q = m.question in
    let length_of_name = length q.name.wire in
    let end = 16 + length q.name.wire in
    let answer = null_size q reply in
    let size = reply_size m reply in
    let P = IsReply dst m reply in
    let counts = null_size-answer_size q reply in
    let answers = one_if (ltb 0 answer) in
    let refused : Bool =
      ltb (length q.name.wire) 1
      || ltb 255 (length q.name.wire)
      || ltb 4095 reply.rcode
      || (ltb 15 reply.rcode && not m.edns.present) in
    Returns-if P refused (err WireError.bad_record) _ (λ _. tt)
      λ _.
        Returns-if P (ltb (length dst) size) (err WireError.bounds) _ (λ _. tt)
          λ enough.
            let fits : size ≤ length dst = ground arith in
            let room : end ≤ size = ground arith in
            let p₀ = overwrite dst 0 (replicate size 0) in
            let n₀ = length-overwrite dst 0 (replicate size 0) in
            let first = asked-Stage dst q reply size fits room in
            let d = asked p₀ q reply in
            let Answered = λ (a : ℕ). Stage dst size q reply a 0 in
            let Added = λ (a : ℕ). Stage dst size q reply answers a in
            let off = if ltb 0 answer then end + (12 + answer) else end in
            rw (put_question-asked p₀ q reply (omega (arith, n₀))) (
              Returns-bind P (Answered answers)
                (if ltb 0 answer then put_answer d end q reply answer else ok d) _
                (Returns-if (Answered answers) (ltb 0 answer) _ (ok d)
                  (λ t.
                    subst (λ a. Returns (Answered a) (put_answer d end q reply answer))
                      (sym (ap one_if t))
                      (put_answer-Stage dst q reply size fits room d answer
                        (answer_fits length_of_name answer m.edns.present t) first))
                  (λ t. subst (λ a. Answered a d) (sym (ap one_if t)) first))
                λ p e k.
                  Returns-bind P (Added (one_if m.edns.present))
                    (if m.edns.present then put_opt p off m.edns reply limit else ok p) _
                    (Returns-if (Added (one_if m.edns.present)) m.edns.present _ (ok p)
                      (λ t.
                        subst (λ a. Returns (Added a) (put_opt p off m.edns reply limit))
                          (sym (ap one_if t))
                          (put_opt-Stage dst q reply size fits room p answers off limit m.edns
                            (opt_behind end answer)
                            (opt_fits length_of_name answer m.edns.present t) k))
                      (λ t. subst (λ a. Added a p) (sym (ap one_if t)) k))
                    λ p e k. record {
                      size = ap (λ k. end + k + (if m.edns.present then 11 else 0)) counts;
                      inside = fits;
                      length_kept = k.0;
                      rest_kept = k.1;
                      answers =
                          subst (λ b. Answers q reply (one_if b) (one_if m.edns.present) p)
                            (null_size_some q reply) k.2;
                    })
