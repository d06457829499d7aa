-- ===== src/Transfer/Network/Packets.antt =====
-- What the two programs put on the network.
mod Tests
use cpe464_program.Common.{
  All, List, [], arith, drop, inl, inr, length, length-take, ok, subst, sym, ℕ, ◌*◌, ◌+◌, ◌<◌, ◌^◌,
  ◌∷◌, ◌≡◌, ◌≤◌, ◌⊎◌,
}
use cpe464_program.Buffer.{CircularBuffer, Memory, buffer_init}
use cpe464_program.Checksum.{in_cksum}
use cpe464_program.Checksum.Sum.{IsBytes}
use cpe464_program.Net.{Net}
use cpe464_program.Packet.{
  build_packet, flag_eof, flag_rr, flag_srej, header_size, max_payload_size, max_pdu, store_net32,
}
use cpe464_program.Packet.Fields.{build_packet_fields}
use cpe464_program.Packet.Layout.{
  build_packet_verifies, rr_packet-eq-build_packet, srej_packet-eq-build_packet,
}
use cpe464_program.Rcopy.{finished, zeroed}
use cpe464_program.Rcopy.Acks.{IsReply, eof, rr, srej}
use cpe464_program.Rcopy.Delivery.File.{block_of}
use cpe464_program.Transfer.{IsBytes-block_of, IsBytes-build_packet}
use cpe464_program.Transfer.Network.{Reach, System}
use cpe464_program.Transfer.Network.Ending.{Ends, Ends-IsEnding}
use cpe464_program.Transfer.Network.Safety.{Reach-IsSafe, begun, begun_by-IsSafe}
use cpe464_program.Transfer.Network.Sender.{IsBlock-IsPart, IsPart}

-- A packet of bytes that verifies, has a header, and fits the arrays of the receivers.
abbrev pub IsPacket : List ℕ → Type 0
IsPacket p = IsBytes p × (in_cksum p ≡ 0) × (header_size ≤ length p) × (length p ≤ max_pdu)

build_packet-IsPacket :
    (k flag : ℕ) (payload : List ℕ)
    → k < 2 ^ 32
    → flag < 256
    → IsBytes payload
    → length payload ≤ max_payload_size
    → IsPacket (build_packet k flag payload)
build_packet-IsPacket k flag payload room f v short =
    let long = (build_packet_fields zeroed k flag payload room).3 in
    (
      IsBytes-build_packet k flag payload f v,
      build_packet_verifies k flag payload f v (omega (arith, short)),
      omega (arith, long),
      omega (arith, long, short),
    )

IsReply-IsPacket : {E : Type 0} {m : ℕ} (p : List ℕ) → IsReply E m p → IsPacket p
IsReply-IsPacket _ (rr k h) = rw rr_packet-eq-build_packet (
    build_packet-IsPacket 0 flag_rr (store_net32 k) (omega arith) (omega arith) (omega arith)
      (omega arith))
IsReply-IsPacket _ (srej k h) = rw srej_packet-eq-build_packet (
    build_packet-IsPacket 0 flag_srej (store_net32 k) (omega arith) (omega arith) (omega arith)
      (omega arith))
IsReply-IsPacket _ (eof e) =
    build_packet-IsPacket 0 flag_eof [] (omega arith) (omega arith) tt (omega arith)

All-mono {ℓ κ} :
    (P : List ℕ → Type ℓ) (Q : List ℕ → Type κ) (l : List (List ℕ))
    → ((p : List ℕ) → P p → Q p)
    → All P l
    → All Q l
All-mono P Q [] f a = tt
All-mono P Q (p ∷ l) f a = (f p a.0, All-mono P Q l f a.1)

-- Both programs have sent nothing but packets.
abbrev pub SendPackets : System → Type 0
SendPackets y = All IsPacket y.server.net.sent × All IsPacket y.client.net.sent

module _ (chunk_size : ℕ) (file : List ℕ) (small : chunk_size ≤ max_payload_size)
    (bytes : IsBytes file) (stack : ℕ → ℕ) (sock_num : ℕ) where
  IsPart-IsPacket : (n : ℕ) (p : List ℕ) → n < 2 ^ 32 → IsPart chunk_size file n p → IsPacket p
  IsPart-IsPacket n p room (k, flag, below, f, only_last, is) = subst IsPacket (sym is) (
      build_packet-IsPacket k flag (block_of chunk_size file k) (omega arith) f
        (IsBytes-block_of chunk_size file k bytes)
        (omega (arith, length-take chunk_size (drop (k * chunk_size) file))))

  parts_and_replies :
      (E : Type 0) (n m : ℕ) (y : System)
      → n < 2 ^ 32
      → All (IsPart chunk_size file n) y.server.net.sent
      → All (IsReply E m) y.client.net.sent
      → SendPackets y
  parts_and_replies E n m y room parts replies = (
    All-mono (IsPart chunk_size file n) IsPacket y.server.net.sent (λ p. IsPart-IsPacket n p room)
        parts,
    All-mono (IsReply E m) IsPacket y.client.net.sent (λ p. IsReply-IsPacket p) replies,
  )

  -- From the same start, with blocks of at least one byte, in every state that the two programs
  -- reach by these steps, before and after the end of the file is read, all that the server and the
  -- client have sent are lists of bytes, of at least a header and at most MAX_PDU, over which
  -- in_cksum is 0.
  pub network_carries_packets :
      {z : System} (m_s m_c : Memory) (window_size highest : ℕ) (window buffer : CircularBuffer)
      (server_net client_net : Net)
      → 0 < chunk_size
      → 0 < window_size
      → highest ≤ window_size
      → buffer_init m_s window_size chunk_size highest ≡ ok window
      → buffer_init m_c window_size chunk_size 0 ≡ ok buffer
      → server_net.sent ≡ []
      → client_net.sent ≡ []
      → (let y =
            begun chunk_size file small bytes stack sock_num window buffer server_net client_net in
          Reach chunk_size file small stack sock_num y z
          ⊎ Ends chunk_size file small stack sock_num y z)
      → SendPackets z
  network_carries_packets {z} m_s m_c window_size highest window buffer server_net client_net big
        pos low ms mc es ec steps =
      let first =
        begun_by-IsSafe chunk_size file small bytes stack sock_num m_s m_c window_size highest
          window buffer server_net client_net pos low ms mc es ec in
      elim steps [
        | inl reach ↦
            (let v = Reach-IsSafe chunk_size file small bytes stack sock_num first reach in
              let current = z.server.window.current in
              parts_and_replies (z.state ≡ finished) current z.client.buffer.current z
                (omega (arith, v.sending.windowed.room))
                (IsBlock-IsPart chunk_size file current current z.server.net.sent (omega arith)
                  v.sending.blocks)
                v.receiving.replies)
        | inr ends ↦
            (let (n, v) = Ends-IsEnding chunk_size file small bytes stack sock_num big first ends in
              parts_and_replies (z.state ≡ finished) (n + 1) z.client.buffer.current z
                (omega (arith, v.room)) v.closing.parts v.receiving.replies)
      ]
