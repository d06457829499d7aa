-- ===== src/Rcopy/Acks.antt =====
-- rcopy.c: what the client sends while it receives.
pub mod Packets
pub mod Flush
pub mod Machine
mod Tests
use cpe464_program.Common.{
  All, List, [], ap, append-nil, append_assoc, arith, sym, ℕ, ◌++◌, ◌∙◌, ◌∷◌, ◌≡◌, ◌≤◌,
}
use cpe464_program.Packet.{build_packet, flag_eof, rr_packet, srej_packet}
use cpe464_program.Rcopy.{Rcopy, RecvState, finished}

-- A reply for a client whose current number is `n`: an RR or an SREJ of a number up to `n`, or, if the
-- client has ended, the EOF.
pub data IsReply (E : Type 0) (n : ℕ) : List ℕ → Type 0 where
  rr : (k : ℕ) → k ≤ n → IsReply E n (rr_packet k)
  srej : (k : ℕ) → k ≤ n → IsReply E n (srej_packet k)
  eof : E → IsReply E n (build_packet 0 flag_eof [])

-- The buffer has as many entries for blocks of as many bytes.
abbrev pub SameSizes : Rcopy → Rcopy → Type 0
SameSizes s t = (t.buffer.size ≡ s.buffer.size) × (t.buffer.buffer_size ≡ s.buffer.buffer_size)

-- From `s` to `t` the client has only sent replies, its current number has not gone down, and the sizes
-- of its buffer are the same.
pub record IsHonest (E : Type 0) (s t : Rcopy) : Type 0 where
  pub replies : List (List ℕ)
  pub sent : t.net.sent ≡ s.net.sent ++ replies
  pub each : All (IsReply E t.buffer.current) replies
  pub forward : s.buffer.current ≤ t.buffer.current
  pub sizes : SameSizes s t

-- What a call of the state machine that began in `s` gives.
abbrev pub IsAnswer : Rcopy → RecvState × Rcopy → Type 0
IsAnswer s r = IsHonest (r.0 ≡ finished) s r.1

pub IsReply-mono :
    {E F : Type 0} {m n : ℕ} (p : List ℕ) → (E → F) → m ≤ n → IsReply E m p → IsReply F n p
IsReply-mono _ f h (rr k l) = rr k (omega arith)
IsReply-mono _ f h (srej k l) = srej k (omega arith)
IsReply-mono _ f h (eof e) = eof (f e)

pub All-reply :
    {E F : Type 0} {m n : ℕ} (l l' : List (List ℕ))
    → (E → F)
    → m ≤ n
    → All (IsReply E m) l
    → All (IsReply F n) l'
    → All (IsReply F n) (l ++ l')
All-reply [] l' f h a a' = a'
All-reply (p ∷ l) l' f h (r, a) a' = (IsReply-mono p f h r, All-reply l l' f h a a')

pub IsHonest-trans :
    {E F : Type 0} (s t u : Rcopy) → (E → F) → IsHonest E s t → IsHonest F t u → IsHonest F s u
IsHonest-trans s t u f a b = record {
  replies = a.replies ++ b.replies;
  sent = b.sent ∙ ap (λ l. l ++ b.replies) a.sent ∙ append_assoc s.net.sent a.replies b.replies;
  each = All-reply a.replies b.replies f b.forward a.each b.each;
  forward = omega (arith, a.forward, b.forward);
  sizes = (b.sizes.0 ∙ a.sizes.0, b.sizes.1 ∙ a.sizes.1);
}

-- Nothing sent, and the same current number.
pub IsHonest-still :
    {E : Type 0} (s t : Rcopy)
    → t.net.sent ≡ s.net.sent
    → t.buffer.current ≡ s.buffer.current
    → SameSizes s t
    → IsHonest E s t
IsHonest-still s t e f same = record {
  replies = [];
  sent = e ∙ sym (append-nil s.net.sent);
  each = tt;
  forward = omega arith;
  sizes = same;
}

pub one_reply :
    {E : Type 0} (s t : Rcopy) (p : List ℕ)
    → t.net.sent ≡ s.net.sent ++ (p ∷ [])
    → SameSizes s t
    → IsReply E t.buffer.current p
    → s.buffer.current ≤ t.buffer.current
    → IsHonest E s t
one_reply s t p e same r h = record {
  replies = p ∷ [];
  sent = e;
  each = (r, tt);
  forward = h;
  sizes = same;
}
