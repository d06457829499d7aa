-- ===== src/Packet/Layout.antt =====
-- What the packets are made of: a header, and the payload as it was given.
use cpe464_program.Common.{
  List, arith, length, write_at-replicate, ℕ, ◌%◌, ◌++◌, ◌/◌, ◌<◌, ◌^◌, ◌∷◌, ◌≡◌, ◌≤◌,
}
use cpe464_program.Checksum.{in_cksum}
use cpe464_program.Checksum.Sum.{IsBytes, in_cksum-sealed}
use cpe464_program.Packet.{
  build_packet, filename_packet, flag_filename, flag_rr, flag_srej, rr_packet, srej_packet,
  store_net32,
}

-- A packet with its checksum field as given.
abbrev pub with_cksum : ℕ → ℕ → ℕ → List ℕ → List ℕ
with_cksum seq_num flag cksum payload =
    (seq_num / 2 ^ 24 % 256)
    ∷ (seq_num / 2 ^ 16 % 256)
    ∷ (seq_num / 2 ^ 8 % 256)
    ∷ (seq_num % 256)
    ∷ (cksum % 256)
    ∷ (cksum / 256 % 256)
    ∷ flag
    ∷ payload

abbrev pub cksum_of : ℕ → ℕ → List ℕ → ℕ
cksum_of seq_num flag payload = in_cksum (with_cksum seq_num flag 0 payload)

pub build_packet_lem :
    (seq_num flag : ℕ) (payload : List ℕ)
    → build_packet seq_num flag payload
      ≡ with_cksum seq_num flag (cksum_of seq_num flag payload) payload
unfolding build_packet
build_packet_lem seq_num flag payload = rw (write_at-replicate payload 0)

-- Every packet that build_packet makes of bytes, with a payload of at most 65528 of them, verifies:
-- in_cksum over it is 0.
pub build_packet_verifies :
    (seq_num flag : ℕ) (payload : List ℕ)
    → flag < 256
    → IsBytes payload
    → length payload ≤ 65528
    → in_cksum (build_packet seq_num flag payload) ≡ 0
build_packet_verifies seq_num flag payload f v short = rw build_packet_lem (
    in_cksum-sealed (seq_num / 2 ^ 24 % 256) (seq_num / 2 ^ 16 % 256) (seq_num / 2 ^ 8 % 256)
      (seq_num % 256) (flag ∷ payload)
      (
        omega arith,
        (omega arith, (omega arith, (omega arith, (omega arith, (omega arith, (f, v)))))),
      )
      (omega arith))

-- What `send_SREJ` builds by hand is what `build_packet` builds of the same fields.
pub srej_packet-eq-build_packet : (n : ℕ) → srej_packet n ≡ build_packet 0 flag_srej (store_net32 n)
unfolding srej_packet
srej_packet-eq-build_packet n = rw build_packet_lem

pub rr_packet-eq-build_packet : (n : ℕ) → rr_packet n ≡ build_packet 0 flag_rr (store_net32 n)
unfolding rr_packet
rr_packet-eq-build_packet n = rw build_packet_lem

abbrev pub filename_payload : ℕ → ℕ → List ℕ → List ℕ
filename_payload window_size buffer_size filename =
    store_net32 window_size ++ (store_net32 buffer_size ++ filename)

pub filename_packet-eq-build_packet :
    (window_size buffer_size : ℕ) (filename : List ℕ)
    → filename_packet window_size buffer_size filename
      ≡ build_packet 0 flag_filename (filename_payload window_size buffer_size filename)
unfolding filename_packet
filename_packet-eq-build_packet window_size buffer_size filename =
    rw (build_packet_lem, write_at-replicate filename 0)

-- The packets that send_SREJ, send_rr and send_filename build by hand are those that build_packet
-- makes of the same fields.
pub hand_built-eq-build_packet :
    (n window_size buffer_size : ℕ) (filename : List ℕ)
    → (srej_packet n ≡ build_packet 0 flag_srej (store_net32 n))
      × (rr_packet n ≡ build_packet 0 flag_rr (store_net32 n))
      × (filename_packet window_size buffer_size filename
          ≡ build_packet 0 flag_filename
              (store_net32 window_size ++ (store_net32 buffer_size ++ filename)))
hand_built-eq-build_packet n window_size buffer_size filename = (
  srej_packet-eq-build_packet n,
  rr_packet-eq-build_packet n,
  filename_packet-eq-build_packet window_size buffer_size filename,
)

-- The control packets verify.
pub control_packet_verifies :
    (n : ℕ) → (in_cksum (srej_packet n) ≡ 0) × (in_cksum (rr_packet n) ≡ 0)
control_packet_verifies n = (
  rw srej_packet-eq-build_packet
      (build_packet_verifies 0 flag_srej (store_net32 n) (omega arith) (omega arith) (omega arith)),
  rw rr_packet-eq-build_packet
      (build_packet_verifies 0 flag_rr (store_net32 n) (omega arith) (omega arith) (omega arith)),
)
