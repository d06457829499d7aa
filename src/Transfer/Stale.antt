-- ===== src/Transfer/Stale.antt =====
-- What a damaged acknowledgement does to the file, through server.c and rcopy.c.
use cpe464_program.Common.{
  List, [], ap, arith, drop, eq→==, incr, incr-lt, length, length-take, le→leb, ne→==, none, ok,
  refl, sym, ℕ, ◌*◌, ◌++◌, ◌+◌, ◌-◌, ◌<◌, ◌^◌, ◌∙◌, ◌∷◌, ◌≡◌, ◌≢◌, ◌≤◌,
}
use cpe464_program.Checksum.{in_cksum}
use cpe464_program.Checksum.Sum.{IsBytes}
use cpe464_program.Net.{safe_sendto}
use cpe464_program.Packet.{
  build_packet, byte_at, flag_eof, flag_resent_data, header_size, load_net32, max_payload_size,
  rr_packet,
}
use cpe464_program.Packet.Fields.{build_packet_fields}
use cpe464_program.Packet.Layout.{build_packet_verifies}
use cpe464_program.Rcopy.{Rcopy, inorder, next_inorder, receive_inorder, zeroed}
use cpe464_program.Rcopy.Delivery.File.{block_of}
use cpe464_program.Server.{Server, process_packet}
use cpe464_program.Server.Blocks.{IsServing}
use cpe464_program.Server.Stale.{process_packet_stale}
use cpe464_program.Transfer.{IsBytes-block_of}

-- A packet that verifies, is not an EOF and carries the number that the client waits for is written.
pub receive_inorder-writes :
    (packet : List ℕ) (c : Rcopy)
    → in_cksum packet ≡ 0
    → byte_at zeroed packet 6 ≢ flag_eof
    → load_net32 zeroed packet 0 ≡ c.buffer.current
    → header_size ≤ length packet
    → c.buffer.current < 2 ^ 31
    → (c' : Rcopy) × (receive_inorder packet c ≡ ok (inorder, c'))
      × (c'.out_file ≡ c.out_file ++ drop header_size packet)
      × (c'.buffer.current ≡ c.buffer.current + 1)
      × (c'.net.sent ≡ c.net.sent ++ (rr_packet (c.buffer.current + 1) ∷ []))
unfolding receive_inorder next_inorder safe_sendto
receive_inorder-writes packet c good plain number long room = (
  record c {
    net = record c.net { sent = c.net.sent ++ (rr_packet (incr c.buffer.current) ∷ []) };
    buffer = record c.buffer { current = incr c.buffer.current; highest = c.buffer.current };
    out_file = c.out_file ++ drop header_size packet;
  },
  rw (
    eq→== (in_cksum packet) 0 good,
    ne→== (byte_at zeroed packet 6) flag_eof plain,
    eq→== (load_net32 zeroed packet 0) c.buffer.current number,
    le→leb header_size (length packet) long,
  ),
  refl,
  incr-lt c.buffer.current room,
  ap (λ k. c.net.sent ++ (rr_packet k ∷ [])) (incr-lt c.buffer.current room),
)

-- If all packets that the server sent are acknowledged, at least a window of them, then an
-- acknowledgement that does not verify makes process_rr_srej_eof send one packet, which a client
-- that waits in order for the next block accepts: it writes the block one window back in the place
-- of the next block.
pub stale_block_is_written :
    (chunk_size : ℕ) (file : List ℕ) (stack : ℕ → ℕ) (packet : List ℕ) (s : Server) (c : Rcopy)
    → chunk_size ≤ max_payload_size
    → IsBytes file
    → IsServing chunk_size file s
    → s.window.lowest ≡ s.window.current
    → s.window.size ≤ s.window.current
    → s.window.current < 2 ^ 31
    → c.buffer.current ≡ s.window.current
    → in_cksum packet ≢ 0
    → (s' : Server) × (stale : List ℕ) × (c' : Rcopy) × (process_packet stack packet s
        ≡ ok (none, s'))
      × (s'.net.sent ≡ s.net.sent ++ (stale ∷ []))
      × (receive_inorder stale c ≡ ok (inorder, c'))
      × (c'.out_file ≡ c.out_file ++ block_of chunk_size file (c.buffer.current - s.window.size))
      × (c'.buffer.current ≡ c.buffer.current + 1)
stale_block_is_written chunk_size file stack packet s c small v w idle far room meet bad =
    let n = s.window.current in
    let old = block_of chunk_size file (n - s.window.size) in
    let stale = build_packet n flag_resent_data old in
    let bytes = IsBytes-block_of chunk_size file (n - s.window.size) v in
    let short : length old ≤ chunk_size =
      omega (arith, length-take chunk_size (drop ((n - s.window.size) * chunk_size) file)) in
    let (number, marked, content, long) =
      build_packet_fields zeroed n flag_resent_data old (omega arith) in
    let (c', received, out, next, replied) =
      receive_inorder-writes stale c
        (build_packet_verifies n flag_resent_data old (omega arith) bytes (omega arith))
        (λ e. omega arith) (number ∙ sym meet) (omega arith) (omega arith) in
    (
      record s { net = record s.net { sent = s.net.sent ++ (stale ∷ []) } },
      stale,
      c',
      process_packet_stale chunk_size file small stack packet s w idle far bad,
      refl,
      received,
      out
          ∙ ap (λ l. c.out_file ++ l) content
          ∙ ap (λ k. c.out_file ++ block_of chunk_size file (k - s.window.size)) (sym meet),
      next,
    )
