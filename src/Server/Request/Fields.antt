-- ===== src/Server/Request/Fields.antt =====
-- The fields of a request, as `send_filename` of rcopy.c builds it.
use cpe464_program.Common.{
  All, List, [], arith, drop, length, ne→==, refl, ℕ, ◌+◌, ◌<◌, ◌^◌, ◌∷◌, ◌≡◌, ◌≤◌,
}
use cpe464_program.Checksum.{in_cksum}
use cpe464_program.Checksum.Sum.{IsBytes}
use cpe464_program.Packet.{filename_packet, flag_filename, load_net32}
use cpe464_program.Packet.Layout.{
  build_packet_lem, build_packet_verifies, filename_packet-eq-build_packet, filename_payload,
}
use cpe464_program.Server.Request.{c_string, max_filename_size}

-- A file name: bytes that are not NUL.
abbrev pub IsName : List ℕ → Type 0
IsName name = All (λ b. (0 < b) × (b < 256)) name

pub c_string-IsName : (name : List ℕ) → IsName name → c_string name ≡ name
c_string-IsName [] v = refl
c_string-IsName (b ∷ name) v = rw (ne→== b 0 (λ z. omega (arith, v.0)), c_string-IsName name v.1)

IsName-IsBytes : (name : List ℕ) → IsName name → IsBytes name
IsName-IsBytes [] v = tt
IsName-IsBytes (b ∷ name) v = (v.0.1, IsName-IsBytes name v.1)

pub filename_packet_verifies :
    (window_size buffer_size : ℕ) (name : List ℕ)
    → IsName name
    → length name ≤ max_filename_size
    → in_cksum (filename_packet window_size buffer_size name) ≡ 0
filename_packet_verifies window_size buffer_size name n short = rw filename_packet-eq-build_packet (
    build_packet_verifies 0 flag_filename (filename_payload window_size buffer_size name)
      (omega arith)
      (
        omega arith,
        (
          omega arith,
          (
            omega arith,
            (
              omega arith,
              (omega arith, (omega arith, (omega arith, (omega arith, IsName-IsBytes name n)))),
            ),
          ),
        ),
      )
      (omega arith))

-- The server reads back from a request of send_filename the two 32-bit sizes, the file name and its
-- length.
pub filename_packet_fields :
    (stack : ℕ → ℕ) (window_size buffer_size : ℕ) (name : List ℕ)
    → window_size < 2 ^ 32
    → buffer_size < 2 ^ 32
    → let packet = filename_packet window_size buffer_size name in
      (load_net32 stack packet 7 ≡ window_size)
      × (load_net32 stack packet 11 ≡ buffer_size)
      × (drop 15 packet ≡ name)
      × (length packet ≡ 15 + length name)
filename_packet_fields stack window_size buffer_size name w b =
    rw (filename_packet-eq-build_packet, build_packet_lem)
      (omega arith, omega arith, refl, omega arith)
