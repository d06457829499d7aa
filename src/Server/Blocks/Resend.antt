-- ===== src/Server/Blocks/Resend.antt =====
-- server.c: resending a block.
use cpe464_program.Common.{List, [], arith, ne→==, ok, ℕ, ◌%◌, ◌++◌, ◌+◌, ◌<◌, ◌∷◌, ◌≡◌, ◌≤◌}
use cpe464_program.Net.{safe_sendto}
use cpe464_program.Packet.{build_packet, max_payload_size}
use cpe464_program.Rcopy.Delivery.File.{block_of}
use cpe464_program.Server.{Server, resend_packet}
use cpe464_program.Server.Blocks.{IsServing, entry_payload_lem}

module _ (chunk_size : ℕ) (file : List ℕ) (small : chunk_size ≤ max_payload_size) where
  -- While the window invariant of the server holds, resend_packet of a number within one window
  -- below `current` sends the block of the file of that number, under that number and the given
  -- flag, and changes nothing else.
  pub resend_packet_lem :
      (s : Server) (k flag : ℕ)
      → IsServing chunk_size file s
      → k < s.window.current
      → s.window.current ≤ k + s.window.size
      → resend_packet k flag s
        ≡ ok (
          tt,
          record s {
            net = record s.net {
              sent = s.net.sent ++ (build_packet k flag (block_of chunk_size file k) ∷ []);
            };
          },
        )
  unfolding resend_packet safe_sendto
  resend_packet_lem s k flag v low near =
      let (e, found, content, inside) = v.stored k low near in
      let full = v.shaped.blocks (k % s.window.size) e found in
      rw (
        ne→== s.window.size 0 (λ z. omega (arith, v.shaped.nonempty)),
        found,
        entry_payload_lem e e.data_len inside (omega (arith, v.chunk)),
        content,
      )
