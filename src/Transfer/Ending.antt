-- ===== src/Transfer/Ending.antt =====
-- How a transfer ends: the EOF packet of server.c, its RR, the EOF packet again, and the client's EOF.
mod Tests
use cpe464_program.Common.{
  List, [], ap, append-nil, arith, drop, eq→==, incr, length, le→leb, ok, refl, slt_of_le,
  slt_of_lt, some, sym, ℕ, ◌%◌, ◌++◌, ◌+◌, ◌<◌, ◌^◌, ◌∙◌, ◌∷◌, ◌≡◌, ◌≤◌,
}
use cpe464_program.Buffer.{CircularBuffer}
use cpe464_program.Checksum.{in_cksum}
use cpe464_program.Net.{safe_sendto}
use cpe464_program.Packet.{
  build_packet, byte_at, flag_eof, flag_rr, header_size, load_net32, rr_packet,
}
use cpe464_program.Packet.Fields.{build_packet_fields, control_packet_fields}
use cpe464_program.Packet.Layout.{build_packet_verifies, control_packet_verifies}
use cpe464_program.Rcopy.{Rcopy, finished, inorder, next_inorder, receive_inorder, zeroed}
use cpe464_program.Server.{Server, obey, process_packet, send_eof}
use cpe464_program.Server.Window.{process_packet_rr}

-- `t` is `s` after one more packet was sent.
abbrev Sends : Server → List ℕ → Server → Type 0
Sends s packet t = (t.net.sent ≡ s.net.sent ++ (packet ∷ [])) × (t.window ≡ s.window)

send_eof-Sends :
    (s : Server)
    → (t : Server) × (send_eof s ≡ ok (tt, t))
      × Sends s (build_packet s.window.current flag_eof []) t
unfolding safe_sendto send_eof
send_eof-Sends s = (
  record s {
    net = record s.net { sent = s.net.sent ++ (build_packet s.window.current flag_eof [] ∷ []) };
  },
  refl,
  (refl, refl),
)

-- The first EOF that comes in order is written as an empty block.
first_eof :
    (packet : List ℕ) (c : Rcopy)
    → in_cksum packet ≡ 0
    → byte_at zeroed packet 6 ≡ flag_eof
    → load_net32 zeroed packet 0 ≡ c.buffer.current
    → header_size ≤ length packet
    → c.buffer.current + 1 < 2 ^ 31
    → receive_inorder packet c
      ≡ ok (
        inorder,
        record c {
          net = record c.net { sent = c.net.sent ++ (rr_packet (incr c.buffer.current) ∷ []) };
          buffer = record c.buffer { current = incr c.buffer.current; highest = c.buffer.current };
          out_file = c.out_file ++ drop header_size packet;
          eof_seq_num = c.buffer.current;
        },
      )
unfolding receive_inorder next_inorder safe_sendto
first_eof packet c good marked number long room = rw (
  eq→== (in_cksum packet) 0 good,
  eq→== (byte_at zeroed packet 6) flag_eof marked,
  number,
  slt_of_le c.buffer.current c.buffer.current (omega arith) (omega arith),
  eq→== c.buffer.current c.buffer.current refl,
  le→leb header_size (length packet) long,
)

-- An EOF whose number the client has passed ends the transfer.
last_eof :
    (packet : List ℕ) (c : Rcopy)
    → in_cksum packet ≡ 0
    → byte_at zeroed packet 6 ≡ flag_eof
    → load_net32 zeroed packet 0 < c.buffer.current
    → c.buffer.current < 2 ^ 31
    → receive_inorder packet c
      ≡ ok (
        finished,
        record c {
          net = record c.net { sent = c.net.sent ++ (build_packet 0 flag_eof [] ∷ []) };
          eof_seq_num = load_net32 zeroed packet 0;
        },
      )
unfolding receive_inorder next_inorder safe_sendto
last_eof packet c good marked passed room = rw (
  eq→== (in_cksum packet) 0 good,
  eq→== (byte_at zeroed packet 6) flag_eof marked,
  slt_of_lt (load_net32 zeroed packet 0) c.buffer.current room passed,
)

-- What the server makes of the client's EOF.
process_packet-eof :
    (stack : ℕ → ℕ) (packet : List ℕ) (s : Server)
    → in_cksum packet ≡ 0
    → byte_at stack packet 6 ≡ flag_eof
    → process_packet stack packet s ≡ ok (some flag_eof, s)
unfolding process_packet obey
process_packet-eof stack packet s good marked = rw (eq→== (in_cksum packet) 0 good, marked)

-- If a client in order and the server stand at the same number, below the largest int less one, the
-- transfer ends in two exchanges: the server's EOF is received in order and answered by an RR, which
-- the server obeys and then sends the same EOF again; the client answers it by an EOF of its own and
-- is finished, with the output file as it was, and the server takes that as the flag of an EOF.
pub eof_handshake :
    (stack : ℕ → ℕ) (s : Server) (c : Rcopy)
    → c.buffer.current ≡ s.window.current
    → s.window.current + 1 < 2 ^ 31
    → let eof_packet = build_packet s.window.current flag_eof [] in
      let reply = rr_packet (s.window.current + 1) in
      let answer = build_packet 0 flag_eof [] in
      (s1 s2 s3 : Server) × (c1 c2 : Rcopy) × (send_eof s ≡ ok (tt, s1))
      × Sends s eof_packet s1
      × (receive_inorder eof_packet c ≡ ok (inorder, c1))
      × (c1.net.sent ≡ c.net.sent ++ (reply ∷ []))
      × (process_packet stack reply s1 ≡ ok (some flag_rr, s2))
      × (send_eof s2 ≡ ok (tt, s3))
      × (s3.net.sent ≡ s2.net.sent ++ (eof_packet ∷ []))
      × (receive_inorder eof_packet c1 ≡ ok (finished, c2))
      × (c2.net.sent ≡ c1.net.sent ++ (answer ∷ []))
      × (c2.out_file ≡ c.out_file)
      × (process_packet stack answer s3 ≡ ok (some flag_eof, s3))
eof_handshake stack s c meet room =
    let n : ℕ = s.window.current in
    let eof_packet = build_packet n flag_eof [] in
    let (number, marked, content, long) = build_packet_fields zeroed n flag_eof [] (omega arith) in
    let good = build_packet_verifies n flag_eof [] (omega arith) tt (omega arith) in
    let (srej_number, rr_number, srej_flag, rr_marked) =
      control_packet_fields stack (n + 1) (omega arith) in
    let (answer_number, answer_marked, answer_content, answer_long) =
      build_packet_fields stack 0 flag_eof [] (omega arith) in
    let (s1, e1, sends1) = send_eof-Sends s in
    let same : s1.window.current ≡ n = ap (λ (w : CircularBuffer). w.current) sends1.1 in
    let s2 : Server = record s1 {
      window = record s1.window { lowest = n + 1; highest = (n + 1 + s1.window.size) % 2 ^ 32 };
    } in
    let (s3, e3, sends3) = send_eof-Sends s2 in
    let up : incr c.buffer.current ≡ n + 1 = omega (arith, meet) in
    let c1 : Rcopy = record c {
      net = record c.net { sent = c.net.sent ++ (rr_packet (incr c.buffer.current) ∷ []) };
      buffer = record c.buffer { current = incr c.buffer.current; highest = c.buffer.current };
      out_file = c.out_file ++ drop header_size eof_packet;
      eof_seq_num = c.buffer.current;
    } in
    (
      s1,
      s2,
      s3,
      c1,
      record c1 {
        net = record c1.net { sent = c1.net.sent ++ (build_packet 0 flag_eof [] ∷ []) };
        eof_seq_num = load_net32 zeroed eof_packet 0;
      },
      e1,
      sends1,
      first_eof eof_packet c good marked (number ∙ sym meet) (omega (arith, long))
          (omega (arith, meet)),
      ap (λ k. c.net.sent ++ (rr_packet k ∷ [])) up,
      process_packet_rr stack (rr_packet (n + 1)) (n + 1) s1 (control_packet_verifies (n + 1)).1
          rr_marked rr_number,
      e3,
      sends3.0 ∙ ap (λ k. s2.net.sent ++ (build_packet k flag_eof [] ∷ [])) same,
      last_eof eof_packet c1 good marked (omega (arith, number, up)) (omega (arith, up)),
      refl,
      ap (λ l. c.out_file ++ l) content ∙ append-nil c.out_file,
      process_packet-eof stack (build_packet 0 flag_eof []) s3
          (build_packet_verifies 0 flag_eof [] (omega arith) tt (omega arith)) answer_marked,
    )
