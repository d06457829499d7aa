-- ===== src/Transfer/Network/Tests.antt =====
-- Three bytes in blocks of two, with windows of two: the server sends both blocks, the client gets block 1
-- first, the poll of the server times out, the client gets block 0 and writes both, and the server hears
-- its RR.
use cpe464_program.Common.{
  All, List, M, [], arith, false, inl, inr, ok, refl, take, ℕ, ◌*◌, ◌+◌, ◌-◌, ◌>>=◌, ◌^◌, ◌∷◌, ◌≡◌,
  ◌≤◌,
}
use cpe464_program.Buffer.{BufferEntry, CircularBuffer, Memory, buffer_add, buffer_init}
use cpe464_program.Checksum.{in_cksum}
use cpe464_program.Checksum.Sum.{IsBytes}
use cpe464_program.Net.{Net, poll, safe_recvfrom, safe_sendto}
use cpe464_program.Packet.{build_packet, flag_data, flag_resent_timeout, rr_packet, srej_packet}
use cpe464_program.Poll.{Answer, answered, poll_call}
use cpe464_program.Rcopy.{
  buffering, flush, flush_entry, inorder, next_buffering, next_inorder, receive_data_fsm,
}
use cpe464_program.Server.{
  Server, entry_payload, obey, process_packet, read_file_to_buffer, resend_packet, send_data,
  send_read,
}
use cpe464_program.Transfer.Network.{
  Reach, System, hears, here, listening, next, receives, sends, times_out,
}
use cpe464_program.Transfer.Network.Safety.{Reach-IsPrefix, begun}
use cpe464_program.Transfer.Network.Sender.{IsBlock}

abbrev pub file : List ℕ
file = 1 ∷ 2 ∷ 3 ∷ []

abbrev pub memory : Memory
memory = record { fails = λ i. false; junk = λ i j. 7; junk_len = λ i. 9 }

abbrev empty_entry : BufferEntry
empty_entry = record {
  bytes = 7 ∷ 7 ∷ [];
  sequence_num = 2 ^ 32 - 1;
  valid_flag = false;
  data_len = 9;
}

abbrev pub buffer : ℕ → CircularBuffer
buffer highest = record {
  entries = empty_entry ∷ empty_entry ∷ [];
  highest = highest;
  lowest = 0;
  current = 0;
  size = 2;
  buffer_size = 2;
}

pub buffers_made :
    (buffer_init memory 2 2 2 ≡ ok (buffer 2)) × (buffer_init memory 2 2 0 ≡ ok (buffer 0))
unfolding buffer_init
buffers_made = (refl, refl)

abbrev pub net : Net
net = record {
  poll_set = record { descriptors = []; max_descriptor = 4; set_size = 10 };
  answers = [];
  arrivals = [];
  sent = [];
}

abbrev pub ready : Answer
ready = answered 1 (0 ∷ 0 ∷ 0 ∷ 1 ∷ [])

abbrev pub stack : ℕ → ℕ
stack i = 170

abbrev block_0 : List ℕ
block_0 = build_packet 0 flag_data (1 ∷ 2 ∷ [])

abbrev block_1 : List ℕ
block_1 = build_packet 1 flag_data (3 ∷ [])

-- The server after an operation, and the client after a packet.
abbrev pub serve : {A : Type 0} → M Server A → System → System
serve op y = record y { server = elim (op y.server) [ ok r ↦ r.1 | _ ↦ y.server ] }

abbrev pub receive : List ℕ → System → System
receive p y = elim (receive_data_fsm 3 y.state (listening ready p y.client)) [
  | ok r ↦ record y { client = r.1; state = r.0 }
  | _ ↦ y
]

pub file-IsBytes : IsBytes file
file-IsBytes = (omega arith, (omega arith, (omega arith, tt)))

abbrev pub begin : System
begin = begun 2 file (omega arith) file-IsBytes stack 3 (buffer 2) (buffer 0) net net

abbrev moment_1 : System
moment_1 = serve (read_file_to_buffer >>= send_read) begin

abbrev moment_2 : System
moment_2 = serve (read_file_to_buffer >>= send_read) moment_1

abbrev moment_3 : System
moment_3 = receive block_1 moment_2

abbrev pub moment_4 : System
moment_4 = serve (resend_packet 0 flag_resent_timeout) moment_3

abbrev moment_5 : System
moment_5 = receive block_0 moment_4

abbrev moment_6 : System
moment_6 = receive block_0 moment_5

abbrev pub moment_7 : System
moment_7 = serve (process_packet stack (rr_packet 2)) moment_6

moments :
    (moment_3.state ≡ buffering)
    × (moment_5.state ≡ flush)
    × (moment_6.state ≡ inorder)
    × (moment_6.client.out_file ≡ file)
    × (moment_7.server.window.lowest ≡ 2)
unfolding read_file_to_buffer send_data buffer_add build_packet safe_sendto receive_data_fsm
    next_inorder next_buffering flush_entry in_cksum rr_packet srej_packet safe_recvfrom poll
    poll_call resend_packet entry_payload process_packet obey
moments = (refl, refl, refl, refl, refl)

abbrev Steps : System → Type 0
Steps y = Reach 2 file (omega arith) stack 3 begin y

both_sent : Steps moment_2
unfolding read_file_to_buffer send_data buffer_add build_packet safe_sendto receive_data_fsm
    next_inorder next_buffering flush_entry in_cksum rr_packet srej_packet safe_recvfrom poll
    poll_call resend_packet entry_payload process_packet obey
both_sent = next (next here (sends refl refl)) (sends refl refl)

pub out_of_order : Steps moment_4
unfolding read_file_to_buffer send_data buffer_add build_packet safe_sendto receive_data_fsm
    next_inorder next_buffering flush_entry in_cksum rr_packet srej_packet safe_recvfrom poll
    poll_call resend_packet entry_payload process_packet obey
out_of_order =
    next
      (next both_sent
        (receives block_1 ready (inl (inr (inl refl))) (λ e. absurd (cc)) refl (λ e. absurd (cc))))
      (times_out (omega arith) refl refl)

delivered : Steps moment_6
unfolding read_file_to_buffer send_data buffer_add build_packet safe_sendto receive_data_fsm
    next_inorder next_buffering flush_entry in_cksum rr_packet srej_packet safe_recvfrom poll
    poll_call resend_packet entry_payload process_packet obey
delivered =
    next
      (next out_of_order (
        receives block_0 ready (inl (inl refl)) (λ e h. absurd (omega (arith, h))) refl
          (λ e. absurd (cc))))
      (receives block_0 ready (inl (inl refl)) (λ e. absurd (cc)) refl (λ e. absurd (cc)))

pub heard : Steps moment_7
unfolding read_file_to_buffer send_data buffer_add build_packet safe_sendto receive_data_fsm
    next_inorder next_buffering flush_entry in_cksum rr_packet srej_packet safe_recvfrom poll
    poll_call resend_packet entry_payload process_packet obey
heard = next delivered (
    hears (rr_packet 2) (inl (inr (inl refl))) (omega arith)
      (record {
        damaged = λ bad. absurd (bad refl);
        moves = λ good marked. (omega arith, omega arith);
        asks = λ good marked. absurd (omega (arith, marked));
      })
      refl)

Reach-IsPrefix_example :
    (moment_7.client.out_file ≡ take (moment_7.client.buffer.current * 2) file)
    × (moment_7.server.window.lowest ≤ moment_7.client.buffer.current)
    × (moment_7.client.buffer.current ≤ moment_7.server.window.current)
    × (moment_7.server.window.current ≤ moment_7.server.window.lowest + moment_7.server.window.size)
    × All (IsBlock 2 file moment_7.server.window.current) moment_7.server.net.sent
Reach-IsPrefix_example =
    Reach-IsPrefix 2 file (omega arith) file-IsBytes stack 3 memory memory 2 2 (buffer 2) (buffer 0)
      net net (omega arith) (omega arith) buffers_made.0 buffers_made.1 refl refl heard
