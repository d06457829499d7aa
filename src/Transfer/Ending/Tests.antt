-- ===== src/Transfer/Ending/Tests.antt =====
-- The end of a transfer of two blocks.
use cpe464_program.Common.{[], arith, ok, refl, some, ◌++◌, ◌∷◌, ◌≡◌}
use cpe464_program.Buffer.{CircularBuffer}
use cpe464_program.Net.{Net}
use cpe464_program.Packet.{build_packet, flag_eof, flag_rr, rr_packet}
use cpe464_program.Rcopy.{Rcopy, finished, inorder, receive_inorder}
use cpe464_program.Server.{Server, process_packet, send_eof}
use cpe464_program.Transfer.Ending.{eof_handshake}

abbrev idle_net : Net
idle_net = record {
  poll_set = record { descriptors = []; max_descriptor = 4; set_size = 10 };
  answers = [];
  arrivals = [];
  sent = [];
}

abbrev at_two : CircularBuffer
at_two = record { entries = []; highest = 4; lowest = 2; current = 2; size = 2; buffer_size = 2 }

abbrev server : Server
server = record { net = idle_net; window = at_two; export_file = [] }

abbrev client : Rcopy
client = record { net = idle_net; buffer = at_two; out_file = 1 ∷ 2 ∷ 3 ∷ []; eof_seq_num = 0 }

eof_handshake_example :
    let eof_packet = build_packet 2 flag_eof [] in
    let reply = rr_packet 3 in
    let answer = build_packet 0 flag_eof [] in
    (s1 s2 s3 : Server) × (c1 c2 : Rcopy) × (send_eof server ≡ ok (tt, s1))
    × ((s1.net.sent ≡ eof_packet ∷ []) × (s1.window ≡ at_two))
    × (receive_inorder eof_packet client ≡ ok (inorder, c1))
    × (c1.net.sent ≡ reply ∷ [])
    × (process_packet (λ i. 0) reply s1 ≡ ok (some flag_rr, s2))
    × (send_eof s2 ≡ ok (tt, s3))
    × (s3.net.sent ≡ s2.net.sent ++ (eof_packet ∷ []))
    × (receive_inorder eof_packet c1 ≡ ok (finished, c2))
    × (c2.net.sent ≡ c1.net.sent ++ (answer ∷ []))
    × (c2.out_file ≡ 1 ∷ 2 ∷ 3 ∷ [])
    × (process_packet (λ i. 0) answer s3 ≡ ok (some flag_eof, s3))
eof_handshake_example = eof_handshake (λ i. 0) server client refl (omega arith)
