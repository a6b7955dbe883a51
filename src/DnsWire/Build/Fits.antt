-- ===== src/DnsWire/Build/Fits.antt =====
-- `FitReply` keeps within the budget and the buffer.
use dimsum.Prelude.{
  ℕ, ◌+◌, ◌≤◌, ◌<◌, max, ◌≡◌, refl, ap, ◌∙◌, ◌⊎◌, inl, inr, true, false, List, arith, leb, length,
  All, ok, Returns, Returns-bind, Returns-if, Returns-guard,
}
use dimsum.Prelude.Bytes.{IsByte, byte, word, bit}
use dimsum.DnsWire.Errors.{WireError}
use dimsum.DnsWire.Header.{is_response}
use dimsum.DnsWire.Record.{Edns}
use dimsum.DnsWire.Message.{Message, scan_message}
use dimsum.DnsWire.Message.Tiles.{IsScanned, scan_message-IsScanned}
use dimsum.DnsWire.Build.{Reply, udp_budget, overwrite, build_reply, fit_reply}
use dimsum.DnsWire.Build.Layout.{length-overwrite, byte-overwrite_inside}
use dimsum.DnsWire.Build.Answers.{one_if, IsReply, build_reply-IsReply}

-- The reply that replaces one which is too long.
abbrev pub cut_short : Message → Reply
cut_short m = record {
  rcode = m.rcode;
  null_answer = false;
  ttl = 0;
  recursion_available = bit m.question.header.flags 7;
  truncated = true;
}

-- The reply in the first `n` bytes of `p` is `response` itself, if it fits the budget, or else a
-- truncated reply without records for the request.
abbrev pub Fitted : List ℕ → List ℕ → Message → ℕ → ℕ × List ℕ → Type 0
Fitted dst response request budget (n, p) =
    (n ≤ budget)
    × (n ≤ length dst)
    × (length p ≡ length dst)
    × ((n ≡ length response) × ((k : ℕ) → k < n → byte p k ≡ byte response k)
        ⊎ ((budget < length response)
            × ((m : Message) × (scan_message response ≡ ok m)
                × IsReply dst request (cut_short m) (n, p)
                × (bit (word p 2) 9 ≡ true)
                × (word p 6 ≡ 0)
                × (word p 8 ≡ 0)
                × (word p 10 ≡ one_if request.edns.present))))

-- `FitReply` ends on every response of bytes and never reads or writes out of range. If it accepts,
-- the result fits the budget and the buffer, and it is the response byte for byte if that fits the
-- budget. Otherwise it is a reply to the request's identifier and question with TC set, with the lower
-- bits of the response's code, and with no records but an OPT record if the request has EDNS.
pub fit_reply-Fitted :
    (dst response : List ℕ) (request : Message) (budget limit : ℕ)
    → All IsByte response
    → Returns (Fitted dst response request budget) (fit_reply dst response request budget limit)
unfolding fit_reply
fit_reply-Fitted dst response request budget limit octets =
    let P = Fitted dst response request budget in
    Returns-bind P (IsScanned response) (scan_message response) _
      (scan_message-IsScanned response octets)
      λ m e _. Returns-guard P (is_response m.question.header.flags) WireError.bad_record _ λ _.
        Returns-if P (leb (length response) budget) _ _
          (λ fits. Returns-guard P (leb (length response) (length dst)) WireError.bounds _ λ room.
            let le : length response ≤ length dst = ground arith in
            (
              ground arith,
              le,
              length-overwrite dst 0 response,
              inl (
                refl,
                λ k lt.
                    let z : k ≡ 0 + k = omega arith in
                    ap (byte (overwrite dst 0 response)) z
                    ∙ byte-overwrite_inside dst 0 response k (omega arith) lt,
              ),
            ))
          (λ long.
            Returns-bind P (IsReply dst request (cut_short m))
              (build_reply dst request (cut_short m) limit) _
              (build_reply-IsReply dst request (cut_short m) limit)
              λ r h w. Returns-guard P (leb r.0 budget) WireError.bounds (ok r) λ le. (
                ground arith,
                w.inside,
                w.length_kept,
                inr (
                  ground arith,
                  (
                    m, e, w, w.answers.flags.truncated, w.answers.answered, w.answers.authorities,
                    w.answers.added,
                  ),
                ),
              ))

-- The budget of a reply over UDP is at least 512 and never above what the client takes.
pub udp_budget_bounds :
    (e : Edns) (limit : ℕ)
    → (512 ≤ udp_budget e limit)
      × (udp_budget e limit ≤ 65535)
      × (udp_budget e limit ≤ max 512 e.udp_size)
unfolding udp_budget
udp_budget_bounds e limit = (ground arith, ground arith, ground arith)
