-- ===== src/Transfer/Network/Recovery/Tests.antt =====
-- The client has got block 1 first and waits for block 0.
use cpe464_program.Common.{arith, inr, ok, refl, some, ◌<◌, ◌≡◌, ◌⊎◌}
use cpe464_program.Buffer.{buffer_add}
use cpe464_program.Checksum.{in_cksum}
use cpe464_program.Net.{poll, safe_recvfrom, safe_sendto}
use cpe464_program.Packet.{build_packet, rr_packet, srej_packet}
use cpe464_program.Poll.{poll_call}
use cpe464_program.Rcopy.{buffering, flush_entry, next_buffering, next_inorder, receive_data_fsm}
use cpe464_program.Server.{
  entry_payload, obey, process_packet, read_file_to_buffer, resend_packet, send_data,
}
use cpe464_program.Transfer.Network.{Reach, System}
use cpe464_program.Transfer.Network.Recovery.{full_window_moves}
use cpe464_program.Transfer.Network.Tests.{
  buffer, buffers_made, file, file-IsBytes, memory, moment_4, net, out_of_order, ready, stack,
}

socket_is_ready : poll_call moment_4.client.net.poll_set ready ≡ ok (some 3)
unfolding read_file_to_buffer send_data buffer_add build_packet safe_sendto receive_data_fsm
    next_inorder next_buffering flush_entry in_cksum rr_packet srej_packet safe_recvfrom poll
    poll_call resend_packet entry_payload process_packet obey
socket_is_ready = refl

client_is_buffering : moment_4.state ≡ buffering
unfolding read_file_to_buffer send_data buffer_add build_packet safe_sendto receive_data_fsm
    next_inorder next_buffering flush_entry in_cksum rr_packet srej_packet safe_recvfrom poll
    poll_call resend_packet entry_payload process_packet obey
client_is_buffering = refl

window_is_full :
    (moment_4.server.window.lowest < moment_4.server.window.current)
    × (moment_4.server.window.current ≡ moment_4.server.window.highest)
unfolding read_file_to_buffer send_data buffer_add build_packet safe_sendto receive_data_fsm
    next_inorder next_buffering flush_entry in_cksum rr_packet srej_packet safe_recvfrom poll
    poll_call resend_packet entry_payload process_packet obey
window_is_full = (omega arith, refl)

full_window_moves_example :
    (z : System) × Reach 2 file (omega arith) stack 3 moment_4 z
    × ((moment_4.server.window.lowest < z.server.window.lowest)
        ⊎ (moment_4.client.buffer.current < z.client.buffer.current))
full_window_moves_example =
    full_window_moves 2 file (omega arith) file-IsBytes stack 3 memory memory 2 2 (buffer 2)
      (buffer 0) net net ready (omega arith) (omega arith) buffers_made.0 buffers_made.1 refl refl
      out_of_order (inr client_is_buffering) window_is_full.0 window_is_full.1 socket_is_ready
