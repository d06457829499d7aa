-- ===== src/Server/Stale.antt =====
-- server.c: an acknowledgement that does not verify, when nothing is outstanding.
use cpe464_program.Common.{
  List, [], arith, mod_ahead, ne→==, none, ok, sym, ℕ, ◌%◌, ◌++◌, ◌-◌, ◌∷◌, ◌≡◌, ◌≢◌, ◌≤◌,
}
use cpe464_program.Checksum.{in_cksum}
use cpe464_program.Net.{safe_sendto}
use cpe464_program.Packet.{build_packet, flag_resent_data, max_payload_size}
use cpe464_program.Rcopy.Delivery.File.{block_of}
use cpe464_program.Server.{Server, process_packet, resend_packet}
use cpe464_program.Server.Blocks.{IsServing, entry_payload_lem}

module _ (chunk_size : ℕ) (file : List ℕ) (small : chunk_size ≤ max_payload_size) where
  -- If all packets that the server sent are acknowledged, at least a window of them, then a packet
  -- that does not verify makes process_rr_srej_eof send the block one window back under the number
  -- of the next block.
  pub process_packet_stale :
      (stack : ℕ → ℕ) (packet : List ℕ) (s : Server)
      → IsServing chunk_size file s
      → s.window.lowest ≡ s.window.current
      → s.window.size ≤ s.window.current
      → in_cksum packet ≢ 0
      → process_packet stack packet s
        ≡ ok (
          none,
          record s {
            net = record s.net {
              sent =
                  s.net.sent
                  ++ (build_packet s.window.current flag_resent_data
                        (block_of chunk_size file (s.window.current - s.window.size))
                      ∷ []);
            };
          },
        )
  unfolding process_packet resend_packet safe_sendto
  process_packet_stale stack packet s v idle far bad =
      let k = s.window.current - s.window.size in
      let (e, found, content, inside) =
        v.stored k (omega (arith, v.shaped.nonempty)) (omega arith) in
      let full = v.shaped.blocks (k % s.window.size) e found in
      let same : s.window.current % s.window.size ≡ k % s.window.size =
        sym (mod_ahead s.window.size s.window.current v.shaped.nonempty far) in
      rw (
        ne→== (in_cksum packet) 0 bad,
        idle,
        ne→== s.window.size 0 (λ z. omega (arith, v.shaped.nonempty)),
        same,
        found,
        entry_payload_lem e e.data_len inside (omega (arith, v.chunk)),
        content,
      )
