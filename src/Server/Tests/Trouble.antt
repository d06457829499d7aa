-- ===== src/Server/Tests/Trouble.antt =====
-- The child of the tests: its window out of step.
use cpe464_program.Common.{
  List, [], arith, none, ok, out_of_fuel, refl, some, ℕ, ◌++◌, ◌∷◌, ◌≡◌, ◌≢◌,
}
use cpe464_program.Buffer.{CircularBuffer}
use cpe464_program.Checksum.{in_cksum}
use cpe464_program.Packet.{flag_rr, rr_packet}
use cpe464_program.Rcopy.{Rcopy, inorder, receive_inorder}
use cpe464_program.Server.{Server, child_loop, process_packet, send_file}
use cpe464_program.Server.Answers.{IsServing-move}
use cpe464_program.Server.Tests.{
  empty_entry, idle, quiet, three_bytes, two_sent, two_sent-IsServing, window,
}
use cpe464_program.Server.Window.{late_rr_spins}
use cpe464_program.Transfer.Stale.{stale_block_is_written}

-- A window of two of which an old RR says that 2 is the first number not received, with 0 to 4 sent.
abbrev ahead : Server
ahead = record {
  net = quiet;
  window = record window { lowest = 3; highest = 5; current = 5 };
  export_file = three_bytes;
}

late_rr_spins_example :
    (t : Server) × (process_packet (λ i. 0) (rr_packet 2) ahead ≡ ok (some flag_rr, t))
    × (child_loop 1000 8 (λ i. 0) 3 send_file t ≡ out_of_fuel)
late_rr_spins_example = late_rr_spins 1000 7 (λ i. 0) 3 2 ahead (omega arith) (omega arith)

damaged : in_cksum (5 ∷ []) ≢ 0
unfolding in_cksum
damaged e = omega arith

-- A client that has written both blocks and waits for the EOF.
abbrev client : Rcopy
client = record {
  net = quiet;
  buffer = record window { current = 2 };
  out_file = three_bytes;
  eof_seq_num = 0;
}

stale_block_is_written_example :
    (s' : Server) × (stale : List ℕ) × (c' : Rcopy) × (process_packet (λ i. 0) (5 ∷ []) idle
      ≡ ok (none, s'))
    × (s'.net.sent ≡ idle.net.sent ++ (stale ∷ []))
    × (receive_inorder stale client ≡ ok (inorder, c'))
    × (c'.out_file ≡ 1 ∷ 2 ∷ 3 ∷ 1 ∷ 2 ∷ [])
    × (c'.buffer.current ≡ 3)
stale_block_is_written_example =
    stale_block_is_written 2 three_bytes (λ i. 0) (5 ∷ []) idle client (omega arith) (omega arith)
      (IsServing-move 2 three_bytes two_sent 2 4 two_sent-IsServing) refl (omega arith)
      (omega arith) refl damaged

-- With a window of one and blocks of two bytes, two blocks go out at once.
abbrev narrow : CircularBuffer
narrow = record {
  entries = empty_entry ∷ [];
  highest = 2;
  lowest = 0;
  current = 0;
  size = 1;
  buffer_size = 2;
}
