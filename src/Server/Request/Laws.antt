-- ===== src/Server/Request/Laws.antt =====
-- What a request says and what comes back: `send_filename` of rcopy.c against `processFilenameAck`.
use cpe464_program.Common.{
  All, List, Option, Run, [], ap, ap₂, arith, drop, eq→==, fault, length, le→leb, lt→leb, ne→==,
  none, ok, refl, some, suc, sym, take, take_of_length_le, ℕ, ◌++◌, ◌+◌, ◌-◌, ◌<◌, ◌^◌, ◌∙◌, ◌∷◌,
  ◌≡◌, ◌≢◌, ◌≤◌,
}
use cpe464_program.Checksum.{in_cksum}
use cpe464_program.Net.{Arrival, Net, datagram, safe_sendto}
use cpe464_program.Net.Laws.{safe_recvfrom_datagram}
use cpe464_program.Packet.{
  build_packet, byte_at, filename_packet, flag_filename_ack, flag_filename_error, load_net32,
  max_pdu, rr_packet,
}
use cpe464_program.Packet.Layout.{
  build_packet_lem, control_packet_verifies, rr_packet-eq-build_packet,
}
use cpe464_program.Server.Request.{
  Request, answer_request, c_string, max_filename_size, process_filename_ack, read_request,
  request_loop,
}
use cpe464_program.Server.Request.Fields.{
  IsName, c_string-IsName, filename_packet_fields, filename_packet_verifies,
}

-- The datagrams were damaged on the way: their checksums do not verify.
abbrev pub AreDamaged : List (List ℕ) → Type 0
AreDamaged packets = All (λ packet. in_cksum (take max_pdu packet) ≢ 0) packets

abbrev pub datagrams : List (List ℕ) → List Arrival → List Arrival
datagrams [] rest = rest
datagrams (packet ∷ packets) rest = datagram packet ∷ datagrams packets rest

-- What the array holds after damaged datagrams.
abbrev leftover : (ℕ → ℕ) → List (List ℕ) → ℕ → ℕ
leftover stack [] = stack
leftover stack (packet ∷ packets) = leftover (byte_at stack (take max_pdu packet)) packets

-- Damaged datagrams only cost attempts.
pub request_loop-damaged :
    (packets : List (List ℕ)) (left : ℕ) (opens : List ℕ → Option (List ℕ)) (stack : ℕ → ℕ)
    (net : Net) (rest : List Arrival)
    → AreDamaged packets
    → net.arrivals ≡ datagrams packets rest
    → request_loop (length packets + left) opens stack net
      ≡ request_loop left opens (leftover stack packets) (record net { arrivals = rest })
unfolding request_loop
request_loop-damaged [] left opens stack net rest v e =
    let same : net ≡ record net { arrivals = rest } =
      ap
        (λ l. record {
          poll_set = net.poll_set;
          answers = net.answers;
          arrivals = l;
          sent = net.sent;
        })
        e in
    let count : length {A = List ℕ} [] + left ≡ left = omega arith in
    rw count (ap (request_loop left opens stack) same)
request_loop-damaged (packet ∷ packets) left opens stack net rest v e =
    let count : length (packet ∷ packets) + left ≡ suc (length packets + left) = omega arith in
    rw
      (
        count,
        safe_recvfrom_datagram max_pdu net packet (datagrams packets rest) e,
        ne→== (in_cksum (take max_pdu packet)) 0 v.0,
      )
      (request_loop-damaged packets left opens (byte_at stack (take max_pdu packet))
        (record net { arrivals = datagrams packets rest }) rest v.1 refl)

request_loop-good :
    (left : ℕ) (opens : List ℕ → Option (List ℕ)) (stack : ℕ → ℕ) (net : Net) (packet : List ℕ)
    (rest : List Arrival)
    → net.arrivals ≡ datagram packet ∷ rest
    → length packet ≤ max_pdu
    → in_cksum packet ≡ 0
    → request_loop (suc left) opens stack net
      ≡ read_request opens stack packet (record net { arrivals = rest })
unfolding request_loop
request_loop-good left opens stack net packet rest e short good = rw (
  safe_recvfrom_datagram max_pdu net packet rest e,
  take_of_length_le max_pdu packet short,
  eq→== (in_cksum packet) 0 good,
)

-- Ten damaged datagrams make processFilenameAck return NULL, with nothing sent and no more than
-- these ten received.
pub process_filename_ack_gives_up :
    (packets : List (List ℕ)) (opens : List ℕ → Option (List ℕ)) (stack : ℕ → ℕ) (net : Net)
    (rest : List Arrival)
    → length packets ≡ 10
    → AreDamaged packets
    → net.arrivals ≡ datagrams packets rest
    → process_filename_ack opens stack net ≡ ok (none, record net { arrivals = rest })
unfolding process_filename_ack
process_filename_ack_gives_up packets opens stack net rest ten v e =
    let count : length packets + 0 ≡ 10 = omega arith in
    ap (λ n. request_loop n opens stack net) (sym count)
    ∙ request_loop-damaged packets 0 opens stack net rest v e

-- What the answer to a request should be: an acknowledgement and the file, or an error.
abbrev pub expected : Net → List Arrival → ℕ → ℕ → Option (List ℕ) → Run (Option Request × Net)
expected net rest window_size buffer_size none = ok (
  none,
  record net { arrivals = rest; sent = net.sent ++ (build_packet 0 flag_filename_error [] ∷ []) },
)
expected net rest window_size buffer_size (some content) = ok (
  some (record { export_file = content; window_size = window_size; buffer_size = buffer_size }),
  record net { arrivals = rest; sent = net.sent ++ (build_packet 0 flag_filename_ack [] ∷ []) },
)

answer_request_lem :
    (net : Net) (rest : List Arrival) (window_size buffer_size : ℕ) (found : Option (List ℕ))
    → answer_request window_size buffer_size found (record net { arrivals = rest })
      ≡ expected net rest window_size buffer_size found
unfolding answer_request safe_sendto
answer_request_lem net rest window_size buffer_size none = refl
answer_request_lem net rest window_size buffer_size (some content) = refl

read_request-fields :
    (packet : List ℕ) (window_size buffer_size : ℕ) (name : List ℕ)
    (opens : List ℕ → Option (List ℕ)) (stack : ℕ → ℕ) (net : Net)
    → load_net32 stack packet 7 ≡ window_size
    → load_net32 stack packet 11 ≡ buffer_size
    → drop 15 packet ≡ name
    → 15 ≤ length packet
    → read_request opens stack packet net
      ≡ answer_request window_size buffer_size (opens (c_string (take max_filename_size name))) net
unfolding read_request
read_request-fields packet window_size buffer_size name opens stack net w b n long =
    rw (le→leb 15 (length packet) long) (
      ap₂
        (λ x y. answer_request x y (opens (c_string (take max_filename_size (drop 15 packet)))) net)
        w b
      ∙ ap
          (λ l.
            answer_request window_size buffer_size (opens (c_string (take max_filename_size l)))
              net)
          n)

read_request_lem :
    (window_size buffer_size : ℕ) (name : List ℕ) (opens : List ℕ → Option (List ℕ)) (stack : ℕ → ℕ)
    (net : Net) (rest : List Arrival)
    → window_size < 2 ^ 32
    → buffer_size < 2 ^ 32
    → IsName name
    → length name ≤ max_filename_size
    → read_request opens stack
        (filename_packet window_size buffer_size name)
        (record net { arrivals = rest })
      ≡ expected net rest window_size buffer_size (opens name)
read_request_lem window_size buffer_size name opens stack net rest w b n short =
    let (w', b', n', l) = filename_packet_fields stack window_size buffer_size name w b in
    let whole = take_of_length_le max_filename_size name short in
    read_request-fields (filename_packet window_size buffer_size name) window_size buffer_size name
      opens stack (record net { arrivals = rest }) w' b' n' (omega arith)
    ∙ ap (λ l. answer_request window_size buffer_size (opens l) (record net { arrivals = rest }))
        (ap c_string whole ∙ c_string-IsName name n)
    ∙ answer_request_lem net rest window_size buffer_size (opens name)

read_request-short :
    (opens : List ℕ → Option (List ℕ)) (stack : ℕ → ℕ) (packet : List ℕ) (net : Net)
    → length packet < 15
    → read_request opens stack packet net ≡ fault
unfolding read_request
read_request-short opens stack packet net short = rw (lt→leb 15 (length packet) short)

rr_packet-length : (n : ℕ) → length (rr_packet n) ≡ 11
rr_packet-length n = rw (rr_packet-eq-build_packet, build_packet_lem) (omega arith)

-- After at most nine damaged datagrams, a request that send_filename builds, with sizes of 32 bits
-- and a name of at most 100 bytes other than NUL, makes processFilenameAck open the file of that
-- name and return it with those sizes after sending an acknowledgement, or return NULL after sending
-- an error if there is no such file.
pub process_filename_ack_lem :
    (packets : List (List ℕ)) (window_size buffer_size : ℕ) (name : List ℕ)
    (opens : List ℕ → Option (List ℕ)) (stack : ℕ → ℕ) (net : Net) (rest : List Arrival)
    → length packets < 10
    → AreDamaged packets
    → window_size < 2 ^ 32
    → buffer_size < 2 ^ 32
    → IsName name
    → length name ≤ max_filename_size
    → net.arrivals
      ≡ datagrams packets (datagram (filename_packet window_size buffer_size name) ∷ rest)
    → process_filename_ack opens stack net ≡ expected net rest window_size buffer_size (opens name)
unfolding process_filename_ack
process_filename_ack_lem packets window_size buffer_size name opens stack net rest few v w b n short
      e =
    let count : length packets + suc (9 - length packets) ≡ 10 = omega arith in
    let packet = filename_packet window_size buffer_size name in
    ap (λ n. request_loop n opens stack net) (sym count)
    ∙ request_loop-damaged packets (suc (9 - length packets)) opens stack net
        (datagram packet ∷ rest) v e
    ∙ request_loop-good (9 - length packets) opens (leftover stack packets)
        (record net { arrivals = datagram packet ∷ rest }) packet rest refl
        (omega (arith, (filename_packet_fields stack window_size buffer_size name w b).3))
        (filename_packet_verifies window_size buffer_size name n short)
    ∙ read_request_lem window_size buffer_size name opens (leftover stack packets) net rest w b n
        short

-- If the first datagram on the listening socket is an RR, which verifies but is shorter than a
-- request, processFilenameAck runs into a negative length and an access out of bounds.
pub request_of_rr_faults :
    (n : ℕ) (opens : List ℕ → Option (List ℕ)) (stack : ℕ → ℕ) (net : Net) (rest : List Arrival)
    → net.arrivals ≡ datagram (rr_packet n) ∷ rest
    → process_filename_ack opens stack net ≡ fault
unfolding process_filename_ack
request_of_rr_faults n opens stack net rest e =
    request_loop-good 9 opens stack net (rr_packet n) rest e (omega (arith, rr_packet-length n))
      (control_packet_verifies n).1
    ∙ read_request-short opens stack (rr_packet n) (record net { arrivals = rest })
        (omega (arith, rr_packet-length n))
