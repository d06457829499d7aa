-- ===== src/Transfer/Network/Ending/Tests.antt =====
-- The end of the transfer of three bytes: the EOF of the server is acknowledged and sent again, and the
-- client is finished.
use cpe464_program.Common.{List, [], arith, inl, inr, refl, ℕ, ◌≡◌}
use cpe464_program.Buffer.{buffer_add}
use cpe464_program.Checksum.{in_cksum}
use cpe464_program.Net.{poll, safe_recvfrom, safe_sendto}
use cpe464_program.Packet.{build_packet, flag_eof, rr_packet, srej_packet}
use cpe464_program.Poll.{poll_call}
use cpe464_program.Rcopy.{finished, flush_entry, next_buffering, next_inorder, receive_data_fsm}
use cpe464_program.Server.{
  entry_payload, obey, process_packet, read_file_to_buffer, resend_packet, send_data, send_eof,
}
use cpe464_program.Transfer.Network.{System}
use cpe464_program.Transfer.Network.Ending.{
  Ends, Ends-IsDelivered, IsOver, hears_end, reads_past, receives_end, sends_eof, server_heard,
  goes_on,
}
use cpe464_program.Transfer.Network.Tests.{
  begin, buffer, buffers_made, file, file-IsBytes, heard, memory, moment_7, net, ready, receive,
  serve, stack,
}

abbrev eof_packet : List ℕ
eof_packet = build_packet 2 flag_eof []

abbrev moment_8 : System
moment_8 = serve send_eof moment_7

abbrev moment_9 : System
moment_9 = receive eof_packet moment_8

abbrev moment_10 : System
moment_10 = serve (process_packet stack (rr_packet 3)) moment_9

abbrev moment_11 : System
moment_11 = serve send_eof moment_10

abbrev moment_12 : System
moment_12 = receive eof_packet moment_11

is_finished : moment_12.state ≡ finished
unfolding read_file_to_buffer send_data buffer_add build_packet safe_sendto receive_data_fsm
    next_inorder next_buffering flush_entry in_cksum rr_packet srej_packet safe_recvfrom poll
    poll_call resend_packet entry_payload process_packet obey send_eof
is_finished = refl

abbrev EndSteps : System → Type 0
EndSteps y = Ends 2 file (omega arith) stack 3 begin y

end_of_file : EndSteps moment_8
unfolding read_file_to_buffer send_data buffer_add build_packet safe_sendto receive_data_fsm
    next_inorder next_buffering flush_entry in_cksum rr_packet srej_packet safe_recvfrom poll
    poll_call resend_packet entry_payload process_packet obey send_eof
end_of_file = goes_on (reads_past heard refl refl) (sends_eof refl)

acknowledged : EndSteps moment_10
unfolding read_file_to_buffer send_data buffer_add build_packet safe_sendto receive_data_fsm
    next_inorder next_buffering flush_entry in_cksum rr_packet srej_packet safe_recvfrom poll
    poll_call resend_packet entry_payload process_packet obey send_eof
acknowledged =
    goes_on
      (goes_on end_of_file (
        receives_end eof_packet ready (λ e. absurd (cc)) (inl (inr (inr (inr (inl refl)))))
          (λ e. absurd (cc)) refl))
      (hears_end (rr_packet 3) (inl (inr (inr (inl refl)))) (inr (refl, refl, refl)) refl)

completed : EndSteps moment_12
unfolding read_file_to_buffer send_data buffer_add build_packet safe_sendto receive_data_fsm
    next_inorder next_buffering flush_entry in_cksum rr_packet srej_packet safe_recvfrom poll
    poll_call resend_packet entry_payload process_packet obey send_eof
completed = goes_on (goes_on acknowledged (sends_eof refl)) (
    receives_end eof_packet ready (λ e. absurd (cc)) (inl (inr (inr (inr (inl refl)))))
      (λ e. absurd (cc)) refl)

-- The server hears the EOF of the client.
moment_12-IsOver : IsOver stack moment_12
unfolding read_file_to_buffer send_data buffer_add build_packet safe_sendto receive_data_fsm
    next_inorder next_buffering flush_entry in_cksum rr_packet srej_packet safe_recvfrom poll
    poll_call resend_packet entry_payload process_packet obey send_eof
moment_12-IsOver =
    server_heard (build_packet 0 flag_eof []) moment_12.server (inl (inr (inr (inr (inl refl)))))
      (omega arith) refl

Ends-IsDelivered_example : moment_12.client.out_file ≡ file
Ends-IsDelivered_example =
    Ends-IsDelivered 2 file (omega arith) file-IsBytes stack 3 memory memory 2 2 (buffer 2)
      (buffer 0) net net (omega arith) (omega arith) (omega arith) buffers_made.0 buffers_made.1
      refl refl completed moment_12-IsOver
