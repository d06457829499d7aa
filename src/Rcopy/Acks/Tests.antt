-- ===== src/Rcopy/Acks/Tests.antt =====
-- The client that expects packet 0 gets it.
use cpe464_program.Common.{Returns, [], arith, refl, ◌∷◌, ◌≡◌}
use cpe464_program.Checksum.{in_cksum}
use cpe464_program.Net.{datagram, poll, safe_recvfrom, safe_sendto}
use cpe464_program.Packet.{rr_packet}
use cpe464_program.Poll.{answered, poll_call}
use cpe464_program.Rcopy.{Rcopy, inorder, next_inorder, receive_data_fsm}
use cpe464_program.Rcopy.Acks.{IsAnswer}
use cpe464_program.Rcopy.Acks.Machine.{receive_data_fsm-IsHonest}

abbrev expecting : Rcopy
expecting = record {
  net = record {
    poll_set = record { descriptors = []; max_descriptor = 4; set_size = 10 };
    answers = answered 1 (0 ∷ 0 ∷ 0 ∷ 1 ∷ []) ∷ [];
    arrivals = datagram (0 ∷ 0 ∷ 0 ∷ 0 ∷ 237 ∷ 254 ∷ 16 ∷ 1 ∷ 2 ∷ []) ∷ [];
    sent = [];
  };
  buffer = record { entries = []; highest = 0; lowest = 0; current = 0; size = 2; buffer_size = 2 };
  out_file = [];
  eof_seq_num = 0;
}

receive_data_fsm-IsHonest_example :
    Returns (IsAnswer expecting) (receive_data_fsm 3 inorder expecting)
receive_data_fsm-IsHonest_example = receive_data_fsm-IsHonest 3 inorder expecting (omega arith)

packet_is_acknowledged :
    Returns (λ r. r.1.net.sent ≡ rr_packet 1 ∷ []) (receive_data_fsm 3 inorder expecting)
unfolding receive_data_fsm next_inorder in_cksum safe_sendto safe_recvfrom poll poll_call
packet_is_acknowledged = refl
