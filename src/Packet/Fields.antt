-- ===== src/Packet/Fields.antt =====
-- Reading back the fields of a packet as the receivers do.
use cpe464_program.Common.{ℕ, ◌+◌, ◌^◌, ◌<◌, ◌≡◌, refl, List, arith, length, drop}
use cpe464_program.Packet.{
  build_packet, srej_packet, rr_packet, flag_srej, flag_rr, load_net32, byte_at,
}
use cpe464_program.Packet.Layout.{
  build_packet_lem, srej_packet-eq-build_packet, rr_packet-eq-build_packet,
}

-- The receivers read back from a packet of build_packet the 32-bit sequence number, the flag, the
-- payload and the length that went into it.
pub build_packet_fields :
    (behind : ℕ → ℕ) (seq_num flag : ℕ) (payload : List ℕ)
    → seq_num < 2 ^ 32
    → let packet = build_packet seq_num flag payload in
      (load_net32 behind packet 0 ≡ seq_num)
      × (byte_at behind packet 6 ≡ flag)
      × (drop 7 packet ≡ payload)
      × (length packet ≡ 7 + length payload)
build_packet_fields behind seq_num flag payload h =
    rw build_packet_lem (omega arith, refl, refl, omega arith)

-- The server reads back from an SREJ and an RR the 32-bit sequence number that the client put into
-- it, and the flags tell the two apart.
pub control_packet_fields :
    (behind : ℕ → ℕ) (n : ℕ)
    → n < 2 ^ 32
    → (load_net32 behind (srej_packet n) 7 ≡ n)
      × (load_net32 behind (rr_packet n) 7 ≡ n)
      × (byte_at behind (srej_packet n) 6 ≡ flag_srej)
      × (byte_at behind (rr_packet n) 6 ≡ flag_rr)
control_packet_fields behind n h =
    rw (srej_packet-eq-build_packet, rr_packet-eq-build_packet, build_packet_lem, build_packet_lem)
      (omega arith, omega arith, refl, refl)
