-- ===== src/Rcopy/Delivery/Tests.antt =====
-- A transfer of three bytes in blocks of two, with a window of two: block 1 comes first, block 0 comes
-- damaged and again, and the EOF comes twice.
use cpe464_program.Common.{
  Ensures, Ensures-ok, List, Returns, [], arith, false, inl, inr, ok, refl, suc, take, zero, ℕ, ◌+◌,
  ◌-◌, ◌<◌, ◌^◌, ◌∷◌, ◌≡◌,
}
use cpe464_program.Buffer.{BufferEntry, CircularBuffer, Memory, buffer_add, buffer_init}
use cpe464_program.Buffer.Init.{IsInitial, buffer_init-IsInitial}
use cpe464_program.Checksum.{in_cksum}
use cpe464_program.Net.{Arrival, Net, datagram, poll, safe_recvfrom, safe_sendto}
use cpe464_program.Packet.{build_packet, flag_data, flag_eof, max_pdu, rr_packet, srej_packet}
use cpe464_program.Poll.{Answer, answered, poll_call}
use cpe464_program.Rcopy.{
  Rcopy, RecvState, buffering, finished, flush, flush_entry, inorder, next_buffering, next_inorder,
  receive_data_fsm,
}
use cpe464_program.Rcopy.Delivery.{Carries, Holds, IsFaithful}
use cpe464_program.Rcopy.Delivery.File.{block_of, receive_loop_delivers, start, start-IsFaithful}
use cpe464_program.Rcopy.Delivery.Transfer.{
  NextIsAdmissible, NextIsAdmissible-of_arrival, RunIsAdmissible, RunIsAdmissible-step,
  RunIsAdmissible-stop, receive_data_fsm-IsFaithful,
}
use cpe464_program.Rcopy.Machine.{receive_loop}

abbrev block_0 : List ℕ
block_0 = 0 ∷ 0 ∷ 0 ∷ 0 ∷ 237 ∷ 254 ∷ 16 ∷ 1 ∷ 2 ∷ []

abbrev block_1 : List ℕ
block_1 = 0 ∷ 0 ∷ 0 ∷ 1 ∷ 239 ∷ 251 ∷ 16 ∷ 3 ∷ []

abbrev damaged : List ℕ
damaged = 0 ∷ 0 ∷ 0 ∷ 0 ∷ 237 ∷ 254 ∷ 16 ∷ 1 ∷ 253 ∷ []

abbrev eof : List ℕ
eof = 0 ∷ 0 ∷ 0 ∷ 2 ∷ 245 ∷ 253 ∷ 10 ∷ []

abbrev file : List ℕ
file = 1 ∷ 2 ∷ 3 ∷ []

packets_are_built :
    (build_packet 0 flag_data (1 ∷ 2 ∷ []) ≡ block_0)
    × (build_packet 1 flag_data (3 ∷ []) ≡ block_1)
    × (build_packet 2 flag_eof [] ≡ eof)
unfolding build_packet in_cksum
packets_are_built = (refl, refl, refl)

abbrev memory : Memory
memory = record { fails = λ i. false; junk = λ i j. 7; junk_len = λ i. 9 }

abbrev empty_entry : BufferEntry
empty_entry = record {
  bytes = 7 ∷ 7 ∷ [];
  sequence_num = 2 ^ 32 - 1;
  valid_flag = false;
  data_len = 9;
}

abbrev buffer : CircularBuffer
buffer = record {
  entries = empty_entry ∷ empty_entry ∷ [];
  highest = 0;
  lowest = 0;
  current = 0;
  size = 2;
  buffer_size = 2;
}

buffer_made : buffer_init memory 2 2 0 ≡ ok buffer
unfolding buffer_init
buffer_made = refl

abbrev ready : Answer
ready = answered 1 (0 ∷ 0 ∷ 0 ∷ 1 ∷ [])

abbrev net : Net
net = record {
  poll_set = record { descriptors = []; max_descriptor = 4; set_size = 10 };
  answers = ready ∷ ready ∷ ready ∷ ready ∷ ready ∷ [];
  arrivals =
      datagram block_1 ∷ datagram damaged ∷ datagram block_0 ∷ datagram eof ∷ datagram eof ∷ [];
  sent = [];
}

abbrev payload : ℕ → List ℕ
payload = block_of 2 file

abbrev room : 2 + 1 < 2 ^ 31
room = omega arith

transfer_runs :
    Returns
      (λ r. (r.1.out_file ≡ file) × (r.1.net.answers ≡ []))
      (receive_loop 11 3 inorder (start buffer net))
unfolding receive_loop receive_data_fsm next_inorder next_buffering flush_entry buffer_add in_cksum
    rr_packet srej_packet build_packet safe_sendto safe_recvfrom poll poll_call
transfer_runs = (refl, refl)

advance : ℕ → RecvState → Rcopy → Rcopy
advance zero state s = s
advance (suc n) state s = elim (receive_data_fsm 3 state s) [ ok r ↦ advance n r.0 r.1 | _ ↦ s ]

abbrev moment : ℕ → Rcopy
moment n = advance n inorder (start buffer net)

arrives :
    (state : RecvState) (n k : ℕ) (bytes : List ℕ) (rest : List Arrival)
    → (moment n).net.arrivals ≡ datagram bytes ∷ rest
    → Carries payload 2 state (moment n).buffer (take max_pdu bytes) k
    → NextIsAdmissible payload 2 room 3 state (moment n)
arrives state n k bytes rest e c =
    NextIsAdmissible-of_arrival payload 2 room 3 state (moment n) bytes rest e (inr (k, c))

transfer_is_admissible : RunIsAdmissible payload 2 room 3 11 inorder (start buffer net)
unfolding advance receive_data_fsm next_inorder next_buffering flush_entry buffer_add in_cksum
    rr_packet srej_packet build_packet safe_sendto safe_recvfrom poll poll_call
transfer_is_admissible =
    then_on 10 inorder buffering 0 1
      (arrives inorder 0 1 block_1 _ refl (record {
        long = omega arith;
        number = refl;
        content = refl;
        in_file = omega arith;
        eof = λ e. absurd (omega arith);
        small = omega arith;
        near = omega arith;
        ordered = λ e h. absurd (cc);
      }))
      refl
      (then_on 9 buffering buffering 1 2
        (NextIsAdmissible-of_arrival payload 2 room 3 buffering (moment 1) damaged _ refl
          (inl (λ e. absurd (omega arith))))
        refl
        (then_on 8 buffering flush 2 3
          (arrives buffering 2 0 block_0 _ refl (record {
            long = omega arith;
            number = refl;
            content = refl;
            in_file = omega arith;
            eof = λ e. absurd (omega arith);
            small = omega arith;
            near = omega arith;
            ordered = λ e h. absurd (omega arith);
          }))
          refl
          (then_on 7 flush inorder 3 4
            (arrives flush 3 2 eof _ refl (record {
              long = omega arith;
              number = refl;
              content = refl;
              in_file = omega arith;
              eof = λ e. refl;
              small = omega arith;
              near = omega arith;
              ordered = λ e h. absurd (cc);
            }))
            refl
            (then_on 6 inorder inorder 4 5
              (arrives inorder 4 2 eof _ refl (record {
                long = omega arith;
                number = refl;
                content = refl;
                in_file = omega arith;
                eof = λ e. refl;
                small = omega arith;
                near = omega arith;
                ordered = λ e h. absurd (cc);
              }))
              refl
              (then_on 5 inorder finished 5 6
                (arrives inorder 5 2 eof _ refl (record {
                  long = omega arith;
                  number = refl;
                  content = refl;
                  in_file = omega arith;
                  eof = λ e. refl;
                  small = omega arith;
                  near = omega arith;
                  ordered = λ e h. absurd (cc);
                }))
                refl (RunIsAdmissible-stop payload 2 room 3 5 (moment 6) refl))))))
  where
    then_on :
        (fuel : ℕ) (state next : RecvState) (n n' : ℕ)
        → NextIsAdmissible payload 2 room 3 state (moment n)
        → receive_data_fsm 3 state (moment n) ≡ ok (next, moment n')
        → RunIsAdmissible payload 2 room 3 fuel next (moment n')
        → RunIsAdmissible payload 2 room 3 (suc fuel) state (moment n)
    then_on fuel state next n n' =
        RunIsAdmissible-step payload 2 room 3 fuel state next (moment n) (moment n')

receive_loop_delivers_example :
    Ensures (λ r. r.1.out_file ≡ file) (receive_loop 11 3 inorder (start buffer net))
receive_loop_delivers_example =
    receive_loop_delivers file 2 2 2 3 11 memory buffer net room (omega arith) (omega arith)
      buffer_made (omega arith) transfer_is_admissible

moment_0-IsFaithful :
    IsFaithful payload 2 inorder (start buffer net).buffer (start buffer net).out_file
moment_0-IsFaithful = start-IsFaithful payload 2 (omega arith) (
    Ensures-ok (IsInitial 2 2 0) (buffer_init memory 2 2 0) buffer buffer_made
      (buffer_init-IsInitial memory 2 2 0))

receive_data_fsm-IsFaithful_example :
    Ensures (Holds payload 2) (receive_data_fsm 3 inorder (start buffer net))
receive_data_fsm-IsFaithful_example =
    receive_data_fsm-IsFaithful payload 2 room 3 inorder (start buffer net) (λ e. cc)
      moment_0-IsFaithful transfer_is_admissible.0

-- After the damaged packet the client is buffering still, and block 0 makes it flush.
buffering-IsFaithful : IsFaithful payload 2 buffering (moment 1).buffer (moment 1).out_file
unfolding advance receive_data_fsm next_inorder next_buffering flush_entry buffer_add in_cksum
    rr_packet srej_packet build_packet safe_sendto safe_recvfrom poll poll_call
buffering-IsFaithful =
    Ensures-ok (Holds payload 2) (receive_data_fsm 3 inorder (moment 0)) (buffering, moment 1) refl
      (receive_data_fsm-IsFaithful payload 2 room 3 inorder (moment 0) (λ e. cc) moment_0-IsFaithful
        transfer_is_admissible.0)

flush-IsFaithful : IsFaithful payload 2 flush (moment 3).buffer (moment 3).out_file
unfolding advance receive_data_fsm next_inorder next_buffering flush_entry buffer_add in_cksum
    rr_packet srej_packet build_packet safe_sendto safe_recvfrom poll poll_call
flush-IsFaithful =
    let after_first = transfer_is_admissible.1 buffering (moment 1) refl in
    let after_damaged = after_first.1 buffering (moment 2) refl in
    let still =
      Ensures-ok (Holds payload 2) (receive_data_fsm 3 buffering (moment 1)) (buffering, moment 2)
        refl
        (receive_data_fsm-IsFaithful payload 2 room 3 buffering (moment 1) (λ e. cc)
          buffering-IsFaithful after_first.0) in
    Ensures-ok (Holds payload 2) (receive_data_fsm 3 buffering (moment 2)) (flush, moment 3) refl
      (receive_data_fsm-IsFaithful payload 2 room 3 buffering (moment 2) (λ e. cc) still
        after_damaged.0)
