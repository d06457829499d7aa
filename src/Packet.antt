-- ===== src/Packet.antt =====
-- communication.h and communication.c, and the packets that rcopy.c and server.c build by hand: the
-- bytes of a packet as they stand in memory and go over the network.
pub mod Layout
pub mod Fields
mod Tests
use cpe464_program.Common.{
  ℕ, ◌+◌, ◌-◌, ◌*◌, ◌/◌, ◌%◌, ◌^◌, List, [], ◌∷◌, ◌++◌, length, get_or, set, replicate, write_at,
}
use cpe464_program.Checksum.{in_cksum}

abbrev pub max_payload_size : ℕ
max_payload_size = 1400

abbrev pub header_size : ℕ
header_size = 7

abbrev pub max_pdu : ℕ
max_pdu = 1407

abbrev pub flag_rr : ℕ
flag_rr = 5

abbrev pub flag_srej : ℕ
flag_srej = 6

abbrev pub flag_filename : ℕ
flag_filename = 8

abbrev pub flag_filename_ack : ℕ
flag_filename_ack = 9

abbrev pub flag_eof : ℕ
flag_eof = 10

abbrev pub flag_data : ℕ
flag_data = 16

abbrev pub flag_resent_data : ℕ
flag_resent_data = 17

abbrev pub flag_resent_timeout : ℕ
flag_resent_timeout = 18

abbrev pub flag_filename_error : ℕ
flag_filename_error = 32

-- `htonl` and a copy of the four bytes: the most significant byte comes first.
abbrev pub store_net32 : ℕ → List ℕ
store_net32 n = (n / 2 ^ 24 % 256) ∷ (n / 2 ^ 16 % 256) ∷ (n / 2 ^ 8 % 256) ∷ (n % 256) ∷ []

-- A copy of the two bytes of a checksum, which stays in the order of the host.
abbrev pub store_host16 : ℕ → List ℕ
store_host16 n = (n % 256) ∷ (n / 256 % 256) ∷ []

-- The byte at index `i` of an array that holds `bytes` and behind them whatever `behind` says.
abbrev pub byte_at : (ℕ → ℕ) → List ℕ → ℕ → ℕ
byte_at behind bytes i = get_or bytes i (behind i)

-- A copy of four bytes from index `i`, and `ntohl`.
abbrev pub load_net32 : (ℕ → ℕ) → List ℕ → ℕ → ℕ
load_net32 behind bytes i =
    byte_at behind bytes i * 2 ^ 24
    + byte_at behind bytes (i + 1) * 2 ^ 16
    + byte_at behind bytes (i + 2) * 2 ^ 8
    + byte_at behind bytes (i + 3)

-- The last steps of every packet: the checksum field is zeroed, the checksum of the whole packet is
-- taken, and it is stored in the field.
unfoldable pub store_cksum : List ℕ → List ℕ
store_cksum packet =
    let blank = write_at 4 (0 ∷ 0 ∷ []) packet in write_at 4 (store_host16 (in_cksum blank)) blank

-- `build_packet`: the first `packet_len` bytes of `packet`. A `NULL` payload is the empty list.
unfoldable pub build_packet : ℕ → ℕ → List ℕ → List ℕ
unfolding store_cksum
build_packet seq_num flag payload =
    let zeroed = replicate 7 0 ++ replicate (length payload) 0 in
    let numbered = write_at 0 (store_net32 seq_num) zeroed in
    let flagged = set numbered 6 flag in store_cksum (write_at 7 payload flagged)

-- The packet of `send_SREJ`.
unfoldable pub srej_packet : ℕ → List ℕ
unfolding store_cksum
srej_packet missing_seq =
    let numbered = write_at 0 (store_net32 0) (replicate 11 0) in
    let flagged = set numbered 6 flag_srej in
    store_cksum (write_at 7 (store_net32 missing_seq) flagged)

-- The packet of `send_rr`.
unfoldable pub rr_packet : ℕ → List ℕ
unfolding store_cksum
rr_packet next_expected_seq =
    let numbered = write_at 0 (store_net32 0) (replicate 11 0) in
    let flagged = set numbered 6 flag_rr in
    store_cksum (write_at 7 (store_net32 next_expected_seq) flagged)

-- The packet of `send_filename`: the first `out_packet_len` bytes of a zeroed array.
unfoldable pub filename_packet : ℕ → ℕ → List ℕ → List ℕ
unfolding store_cksum
filename_packet window_size buffer_size filename =
    let zeroed = replicate 15 0 ++ replicate (length filename) 0 in
    let numbered = write_at 0 (store_net32 0) zeroed in
    let flagged = set numbered 6 flag_filename in
    let windowed = write_at 7 (store_net32 window_size) flagged in
    let sized = write_at 11 (store_net32 buffer_size) windowed in
    store_cksum (write_at 15 filename sized)
