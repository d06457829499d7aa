-- ===== src/Packet/Tests.antt =====
-- Packets on small data.
use cpe464_program.Common.{[], arith, drop, length, ◌∷◌, ◌≡◌}
use cpe464_program.Packet.{
  build_packet, byte_at, filename_packet, flag_data, flag_filename, flag_rr, flag_srej, load_net32,
  rr_packet, srej_packet,
}
use cpe464_program.Packet.Fields.{build_packet_fields}
use cpe464_program.Packet.Layout.{hand_built-eq-build_packet}

build_packet_fields_example :
    let packet = build_packet 300 flag_data (1 ∷ 2 ∷ 3 ∷ []) in
    (load_net32 (λ i. 170) packet 0 ≡ 300)
    × (byte_at (λ i. 170) packet 6 ≡ flag_data)
    × (drop 7 packet ≡ 1 ∷ 2 ∷ 3 ∷ [])
    × (length packet ≡ 10)
build_packet_fields_example =
    build_packet_fields (λ i. 170) 300 flag_data (1 ∷ 2 ∷ 3 ∷ []) (omega arith)

hand_built-eq-build_packet_example :
    (srej_packet 5 ≡ build_packet 0 flag_srej (0 ∷ 0 ∷ 0 ∷ 5 ∷ []))
    × (rr_packet 5 ≡ build_packet 0 flag_rr (0 ∷ 0 ∷ 0 ∷ 5 ∷ []))
    × (filename_packet 2 4 (97 ∷ [])
        ≡ build_packet 0 flag_filename (0 ∷ 0 ∷ 0 ∷ 2 ∷ 0 ∷ 0 ∷ 0 ∷ 4 ∷ 97 ∷ []))
hand_built-eq-build_packet_example = hand_built-eq-build_packet 5 2 4 (97 ∷ [])
