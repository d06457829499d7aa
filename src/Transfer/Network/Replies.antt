-- ===== src/Transfer/Network/Replies.antt =====
-- rcopy.c: what the client makes of a block that it expects or has passed.
use native.Mathlib.Decide.{ℕ_discrete}
use cpe464_program.Common.{
  List, [], arith, drop, eq→==, incr, incr-lt, inl, inr, length, le→leb, le→ltb, ne→==, ok, refl,
  some, take_of_length_le, ℕ, ◌++◌, ◌+◌, ◌<◌, ◌^◌, ◌∷◌, ◌≡◌, ◌≢◌, ◌≤◌, ◌⊎◌,
}
use cpe464_program.Checksum.{in_cksum}
use cpe464_program.Net.{poll, safe_recvfrom, safe_sendto}
use cpe464_program.Packet.{byte_at, flag_eof, header_size, load_net32, max_pdu, rr_packet}
use cpe464_program.Poll.{Answer, poll_call}
use cpe464_program.Rcopy.{
  Rcopy, buffering, flush, inorder, next_buffering, next_inorder, receive_buffering,
  receive_data_fsm, receive_inorder, zeroed,
}
use cpe464_program.Transfer.Network.{IsIn, listening}
use cpe464_program.Transfer.Stale.{receive_inorder-writes}

pub IsIn-last : (p : List ℕ) (sent : List (List ℕ)) → IsIn p (sent ++ (p ∷ []))
IsIn-last p [] = inl refl
IsIn-last p (q ∷ sent) = inr (IsIn-last p sent)

-- The client when its poll was answered and the datagram taken.
abbrev pub heard_by : Rcopy → Rcopy
heard_by c = record c { net = record c.net { answers = []; arrivals = [] } }

pub receive_data_fsm_hears :
    (sock_num : ℕ) (a : Answer) (p : List ℕ) (c : Rcopy)
    → poll_call c.net.poll_set a ≡ ok (some sock_num)
    → length p ≤ max_pdu
    → receive_data_fsm sock_num inorder (listening a p c) ≡ receive_inorder p (heard_by c)
unfolding receive_data_fsm poll safe_recvfrom
receive_data_fsm_hears sock_num a p c polled short =
    rw (polled, eq→== sock_num sock_num refl, take_of_length_le max_pdu p short)

-- A packet that the client has passed is only answered.
receive_inorder-answers :
    (packet : List ℕ) (c : Rcopy)
    → in_cksum packet ≡ 0
    → byte_at zeroed packet 6 ≢ flag_eof
    → load_net32 zeroed packet 0 < c.buffer.current
    → receive_inorder packet c
      ≡ ok (
        inorder,
        record c { net = record c.net { sent = c.net.sent ++ (rr_packet c.buffer.current ∷ []) } },
      )
unfolding receive_inorder next_inorder safe_sendto
receive_inorder-answers packet c good plain passed = rw (
  eq→== (in_cksum packet) 0 good,
  ne→== (byte_at zeroed packet 6) flag_eof plain,
  ne→== (load_net32 zeroed packet 0) c.buffer.current (λ e. omega (arith, e)),
  le→ltb c.buffer.current (load_net32 zeroed packet 0) (omega arith),
)

-- What the client in order makes of a block that it expects or has passed: an RR of its new number.
pub receive_inorder-replies :
    (packet : List ℕ) (c : Rcopy)
    → in_cksum packet ≡ 0
    → byte_at zeroed packet 6 ≢ flag_eof
    → load_net32 zeroed packet 0 ≤ c.buffer.current
    → header_size ≤ length packet
    → c.buffer.current < 2 ^ 31
    → (c' : Rcopy) × (m : ℕ) × (receive_inorder packet c ≡ ok (inorder, c'))
      × (c'.net.sent ≡ c.net.sent ++ (rr_packet m ∷ []))
      × (load_net32 zeroed packet 0 < m)
      × ((m ≤ c.buffer.current) ⊎ (m ≡ load_net32 zeroed packet 0 + 1))
receive_inorder-replies packet c good plain known long room =
    let n = load_net32 zeroed packet 0 in
    elim (ℕ_discrete n c.buffer.current) [
      | yes now ↦
          (let (c', received, wrote, advanced, replied) =
              receive_inorder-writes packet c good plain now long room in
            (c', c.buffer.current + 1, received, replied, omega arith, inr (omega (arith, now))))
      | no other ↦ (
        record c { net = record c.net { sent = c.net.sent ++ (rr_packet c.buffer.current ∷ []) } },
        c.buffer.current,
        receive_inorder-answers packet c good plain (omega arith),
        refl,
        omega arith,
        inl (omega arith),
      )
    ]

pub rr_packet-fits : (m : ℕ) → length (rr_packet m) ≤ max_pdu
unfolding rr_packet
rr_packet-fits m = omega arith

pub receive_data_fsm_buffers :
    (sock_num : ℕ) (a : Answer) (p : List ℕ) (c : Rcopy)
    → poll_call c.net.poll_set a ≡ ok (some sock_num)
    → length p ≤ max_pdu
    → receive_data_fsm sock_num buffering (listening a p c) ≡ receive_buffering p (heard_by c)
unfolding receive_data_fsm poll safe_recvfrom
receive_data_fsm_buffers sock_num a p c polled short =
    rw (polled, eq→== sock_num sock_num refl, take_of_length_le max_pdu p short)

-- While buffering, the block that the client expects is written, and an older one is answered.
pub receive_buffering-writes :
    (packet : List ℕ) (c : Rcopy)
    → in_cksum packet ≡ 0
    → byte_at zeroed packet 6 ≢ flag_eof
    → load_net32 zeroed packet 0 ≡ c.buffer.current
    → header_size ≤ length packet
    → c.buffer.current < 2 ^ 31
    → (c' : Rcopy) × (receive_buffering packet c ≡ ok (flush, c'))
      × (c'.buffer.current ≡ c.buffer.current + 1)
unfolding receive_buffering next_buffering
receive_buffering-writes packet c good plain number long room = (
  record c {
    buffer = record c.buffer { current = incr c.buffer.current };
    out_file = c.out_file ++ drop header_size packet;
  },
  rw (
    eq→== (in_cksum packet) 0 good,
    ne→== (byte_at zeroed packet 6) flag_eof plain,
    eq→== (load_net32 zeroed packet 0) c.buffer.current number,
    le→leb header_size (length packet) long,
  ),
  incr-lt c.buffer.current room,
)

pub receive_buffering-answers :
    (packet : List ℕ) (c : Rcopy)
    → in_cksum packet ≡ 0
    → byte_at zeroed packet 6 ≢ flag_eof
    → load_net32 zeroed packet 0 < c.buffer.current
    → receive_buffering packet c
      ≡ ok (
        buffering,
        record c { net = record c.net { sent = c.net.sent ++ (rr_packet c.buffer.current ∷ []) } },
      )
unfolding receive_buffering next_buffering safe_sendto
receive_buffering-answers packet c good plain passed = rw (
  eq→== (in_cksum packet) 0 good,
  ne→== (byte_at zeroed packet 6) flag_eof plain,
  ne→== (load_net32 zeroed packet 0) c.buffer.current (λ e. omega (arith, e)),
  le→ltb c.buffer.current (load_net32 zeroed packet 0) (omega arith),
)
