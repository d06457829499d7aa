-- ===== src/Transfer.antt =====
-- Between server.c and rcopy.c: the packets of the server, as the client's invariant sees them.
pub mod Network
pub mod CommandLine
pub mod Ending
pub mod Lockstep
pub mod Stale
mod Tests
use cpe464_program.Common.{
  List, [], arith, drop, get_or, inl, inr, length, length-set, length-take, suc, sym, take,
  take_of_length_le, zero, ℕ, ◌*◌, ◌+◌, ◌-◌, ◌<◌, ◌^◌, ◌∙◌, ◌∷◌, ◌≡◌, ◌≤◌,
}
use cpe464_program.Buffer.{CircularBuffer}
use cpe464_program.Checksum.Detect.{flip_byte, in_cksum-flip_byte}
use cpe464_program.Checksum.Sum.{IsBytes}
use cpe464_program.Packet.{build_packet, flag_eof, max_payload_size, max_pdu}
use cpe464_program.Packet.Fields.{build_packet_fields}
use cpe464_program.Packet.Layout.{build_packet_lem, build_packet_verifies}
use cpe464_program.Rcopy.{RecvState, buffering, zeroed}
use cpe464_program.Rcopy.Delivery.{IsAdmissible}
use cpe464_program.Rcopy.Delivery.File.{block_of}

IsBytes-take : (n : ℕ) (bytes : List ℕ) → IsBytes bytes → IsBytes (take n bytes)
IsBytes-take zero bytes v = tt
IsBytes-take (suc n) [] v = tt
IsBytes-take (suc n) (b ∷ bytes) v = (v.0, IsBytes-take n bytes v.1)

IsBytes-drop : (n : ℕ) (bytes : List ℕ) → IsBytes bytes → IsBytes (drop n bytes)
IsBytes-drop zero bytes v = v
IsBytes-drop (suc n) [] v = tt
IsBytes-drop (suc n) (b ∷ bytes) v = IsBytes-drop n bytes v.1

pub IsBytes-block_of :
    (chunk_size : ℕ) (file : List ℕ) (k : ℕ) → IsBytes file → IsBytes (block_of chunk_size file k)
IsBytes-block_of chunk_size file k v =
    IsBytes-take chunk_size (drop (k * chunk_size) file) (IsBytes-drop (k * chunk_size) file v)

pub IsBytes-build_packet :
    (k flag : ℕ) (payload : List ℕ)
    → flag < 256
    → IsBytes payload
    → IsBytes (build_packet k flag payload)
IsBytes-build_packet k flag payload f v =
    rw build_packet_lem (
      omega arith,
      (omega arith, (omega arith, (omega arith, (omega arith, (omega arith, (f, v)))))),
    )

-- Packet `k` of a file in blocks of at most 1400 bytes meets the client's condition on datagrams, if
-- `k` is in the file and the client's window, only the last packet has the EOF flag, and a client
-- that is buffering has buffered nothing newer: both as it was built and with any one of its bytes
-- turned over.
pub build_packet-IsAdmissible :
    (chunk_size : ℕ) (file : List ℕ) (last : ℕ) (state : RecvState) (b : CircularBuffer)
    (k flag : ℕ)
    → chunk_size ≤ max_payload_size
    → IsBytes file
    → b.buffer_size ≡ chunk_size
    → last < 2 ^ 31
    → k ≤ last
    → k < b.current + b.size
    → flag < 256
    → (flag ≡ flag_eof → k ≡ last)
    → (state ≡ buffering → b.current < k → b.highest ≤ k)
    → let packet = build_packet k flag (block_of chunk_size file k) in
      IsAdmissible (block_of chunk_size file) last state b (take max_pdu packet)
      × ((i : ℕ)
          → i < length packet
          → IsAdmissible
              (block_of chunk_size file)
              last
              state
              b
              (take max_pdu (flip_byte packet i)))
build_packet-IsAdmissible chunk_size file last state b k flag small v same room in_file near f eof
      ordered =
    let payload = block_of chunk_size file k in
    let packet = build_packet k flag payload in
    let bytes = IsBytes-block_of chunk_size file k v in
    let (number, marked, content, long) = build_packet_fields zeroed k flag payload (omega arith) in
    let short : length payload ≤ chunk_size =
      omega (arith, length-take chunk_size (drop (k * chunk_size) file)) in
    let fits : length packet ≤ max_pdu = omega arith in
    (
      rw (take_of_length_le max_pdu packet fits) (
          inr (
            k,
            record {
              long = omega arith;
              number = number;
              content = content;
              in_file = in_file;
              eof = λ e. eof (sym marked ∙ e);
              small = omega arith;
              near = near;
              ordered = ordered;
            },
          )),
      λ i h.
          rw
            (take_of_length_le max_pdu (flip_byte packet i)
              (omega (arith, length-set packet i (255 - get_or packet i 0))))
            (inl (
              in_cksum-flip_byte packet i (IsBytes-build_packet k flag payload f bytes)
                (omega arith) (build_packet_verifies k flag payload f bytes (omega arith)) h)),
    )
