-- ===== src/Server/Tests/Blocks.antt =====
-- The child of the tests: what it reads, sends and keeps.
use cpe464_program.Common.{Ensures, Returns, [], arith, false, ok, ◌>>=◌, ◌∷◌, ◌≡◌}
use cpe464_program.Packet.{build_packet, flag_data, flag_resent_data, rr_packet}
use cpe464_program.Server.{
  Server, handle_send_data, process_packet, read_file_to_buffer, resend_packet, send_read,
}
use cpe464_program.Server.Blocks.{IsServing}
use cpe464_program.Server.Blocks.Resend.{resend_packet_lem}
use cpe464_program.Server.Blocks.Send.{send_next}
use cpe464_program.Server.Loops.{IsSound, handle_send_data-IsSound}
use cpe464_program.Server.Outstanding.{IsAnswered, process_packet-IsAnswered}
use cpe464_program.Server.Tests.{
  first, first-IsServing, forsaken, forsaken-IsServing, one_sent, one_sent-IsServing, quiet,
  rr-IsDue, three_bytes, two_sent, two_sent-IsWindowed,
}

send_next_example :
    (t : Server) × ((read_file_to_buffer >>= send_read) first ≡ ok (false, t))
    × IsServing 2 three_bytes t
    × (t.window.current ≡ 1)
    × ((t.window.lowest ≡ 0) × (t.window.highest ≡ 2) × (t.window.size ≡ 2) × (t.net.answers ≡ []))
    × (t.net.sent ≡ build_packet 0 flag_data (1 ∷ 2 ∷ []) ∷ [])
send_next_example =
    send_next 2 three_bytes (omega arith) first first-IsServing (omega arith) (omega arith)

resend_packet_lem_example :
    resend_packet 0 flag_resent_data one_sent
    ≡ ok (
      tt,
      record one_sent {
        net = record quiet {
          sent =
              build_packet 0 flag_data (1 ∷ 2 ∷ [])
              ∷ build_packet 0 flag_resent_data (1 ∷ 2 ∷ [])
              ∷ [];
        };
      },
    )
resend_packet_lem_example =
    resend_packet_lem 2 three_bytes (omega arith) one_sent 0 flag_resent_data one_sent-IsServing
      (omega arith) (omega arith)

handle_send_data-IsSound_example :
    Returns (λ r. IsSound 2 three_bytes (omega arith) r.1) (handle_send_data 11 (λ i. 0) 3 forsaken)
handle_send_data-IsSound_example =
    handle_send_data-IsSound 2 three_bytes (omega arith) 11 (λ i. 0) 3 forsaken
      (forsaken-IsServing, omega arith)

process_packet-IsAnswered_example :
    Ensures
      (IsAnswered 2 three_bytes (omega arith) two_sent)
      (process_packet (λ i. 0) (rr_packet 1) two_sent)
process_packet-IsAnswered_example =
    process_packet-IsAnswered 2 three_bytes (omega arith) (λ i. 0) (rr_packet 1) two_sent
      two_sent-IsWindowed rr-IsDue
