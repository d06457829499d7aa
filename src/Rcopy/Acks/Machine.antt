-- ===== src/Rcopy/Acks/Machine.antt =====
-- What the client of rcopy.c sends in one call of its state machine.
use cpe464_program.Common.{
  Bool-cases, List, M, Option, Returns, Returns-mono, ap, arith, inl, inr, length, none, refl, some,
  ℕ, ◌+◌, ◌<◌, ◌==◌, ◌>>=◌, ◌^◌, ◌∙◌,
}
use cpe464_program.Net.{Net, poll, safe_recvfrom}
use cpe464_program.Net.Laws.{IsPolled, IsReceived, poll_lem, safe_recvfrom_lem}
use cpe464_program.Packet.{max_pdu}
use cpe464_program.Rcopy.{
  Rcopy, RecvState, buffering, finished, flush, inorder, on_net, on_ready, receive_buffering,
  receive_data_fsm, receive_inorder,
}
use cpe464_program.Rcopy.Acks.{IsAnswer, IsHonest-still, IsHonest-trans}
use cpe464_program.Rcopy.Acks.Flush.{handle_flush-IsHonest}
use cpe464_program.Rcopy.Acks.Packets.{receive_buffering-IsHonest, receive_inorder-IsHonest}
use cpe464_program.Rcopy.Progress.{Returns-on_net}

on_ready-IsHonest :
    (sock_num : ℕ) (state : RecvState) (receive : List ℕ → M Rcopy RecvState)
    → ((packet : List ℕ) (s : Rcopy)
        → s.buffer.current + 1 < 2 ^ 32
        → Returns (IsAnswer s) (receive packet s))
    → (s : Rcopy) → s.buffer.current + 1 < 2 ^ 32
    → Returns (IsAnswer s) ((on_net poll >>= on_ready sock_num state receive) s)
on_ready-IsHonest sock_num state receive honest s room =
    Returns-on_net (λ r. IsPolled s.net r.1) (IsAnswer s) poll s (on_ready sock_num state receive)
      (poll_lem s.net) answered_poll
  where
    answered_poll :
        (ready : Option ℕ) (n : Net)
        → IsPolled s.net n
        → Returns (IsAnswer s) (on_ready sock_num state receive ready (record s { net = n }))
    answered_poll none n p = tt
    answered_poll (some fd) n p = elim (Bool-cases (fd == sock_num)) [
      | inr other ↦ rw other (IsHonest-still s (record s { net = n }) p.same_sent refl (refl, refl))
      | inl ours ↦ rw ours (
          Returns-on_net (IsReceived max_pdu n) (IsAnswer s) (safe_recvfrom max_pdu)
            (record s { net = n }) receive (safe_recvfrom_lem max_pdu n)
            (λ packet n' r.
              Returns-mono (IsAnswer (record s { net = n' })) (IsAnswer s)
                (receive packet (record s { net = n' }))
                (λ q h.
                  IsHonest-trans {E = ⊥} s (record s { net = n' }) q.1 (λ e. absurd e)
                    (IsHonest-still s (record s { net = n' })
                      (ap (λ (m : Net). m.sent) r.4 ∙ p.same_sent) refl (refl, refl))
                    h)
                (honest packet (record s { net = n' }) room)))
    ]

-- Whatever arrives, if a call of receive_data_fsm returns, with the current number and the size of
-- the buffer together below the range of the numbers, then all that it has sent are RRs and SREJs of
-- numbers up to the new current one, and, only if it returns EXIT, EOF packets, and the current
-- number has not gone down; the sizes of its buffer stay.
pub receive_data_fsm-IsHonest :
    (sock_num : ℕ) (state : RecvState) (s : Rcopy)
    → s.buffer.current + length s.buffer.entries + 1 < 2 ^ 32
    → Returns (IsAnswer s) (receive_data_fsm sock_num state s)
unfolding receive_data_fsm
receive_data_fsm-IsHonest sock_num inorder s room =
    on_ready-IsHonest sock_num inorder receive_inorder receive_inorder-IsHonest s (omega arith)
receive_data_fsm-IsHonest sock_num buffering s room =
    on_ready-IsHonest sock_num buffering receive_buffering receive_buffering-IsHonest s
      (omega arith)
receive_data_fsm-IsHonest sock_num flush s room = handle_flush-IsHonest s room
receive_data_fsm-IsHonest sock_num finished s room = tt
