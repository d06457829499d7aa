-- ===== src/Server/Request/Tests.antt =====
-- Requests for the file "ab" among damaged datagrams.
use cpe464_program.Common.{
  List, Option, [], arith, fault, none, ok, refl, replicate, some, suc, take, zero, ℕ, ◌∷◌, ◌≡◌,
  ◌≢◌,
}
use cpe464_program.Checksum.{in_cksum}
use cpe464_program.Net.{Arrival, Net, datagram}
use cpe464_program.Packet.{build_packet, filename_packet, flag_filename_ack, max_pdu, rr_packet}
use cpe464_program.Server.Request.{process_filename_ack}
use cpe464_program.Server.Request.Laws.{AreDamaged, process_filename_ack_lem, request_of_rr_faults}

abbrev name : List ℕ
name = 97 ∷ 98 ∷ []

abbrev opens : List ℕ → Option (List ℕ)
opens [] = none
opens (b ∷ bytes) = some (1 ∷ 2 ∷ 3 ∷ [])

abbrev damaged : List ℕ
damaged = 1 ∷ 2 ∷ 3 ∷ []

damaged_fails : in_cksum (take max_pdu damaged) ≢ 0
unfolding in_cksum
damaged_fails e = omega arith

abbrev listening : List Arrival → Net
listening arrivals = record {
  poll_set = record { descriptors = []; max_descriptor = 4; set_size = 10 };
  answers = [];
  arrivals = arrivals;
  sent = [];
}

process_filename_ack_lem_example :
    process_filename_ack opens
      (λ i. 170)
      (listening (datagram damaged ∷ datagram (filename_packet 5 1000 name) ∷ []))
    ≡ ok (
      some (record { export_file = 1 ∷ 2 ∷ 3 ∷ []; window_size = 5; buffer_size = 1000 }),
      record (listening []) { sent = build_packet 0 flag_filename_ack [] ∷ [] },
    )
process_filename_ack_lem_example =
    process_filename_ack_lem (damaged ∷ []) 5 1000 name opens (λ i. 170)
      (listening (datagram damaged ∷ datagram (filename_packet 5 1000 name) ∷ [])) [] (omega arith)
      (damaged_fails, tt) (omega arith) (omega arith) (omega arith) (omega arith) refl

abbrev ten_damaged : List (List ℕ)
ten_damaged =
    damaged ∷ damaged ∷ damaged ∷ damaged ∷ damaged ∷ damaged ∷ damaged ∷ damaged ∷ damaged
    ∷ damaged ∷ []

AreDamaged-replicate : (n : ℕ) → AreDamaged (replicate n damaged)
AreDamaged-replicate zero = tt
AreDamaged-replicate (suc n) = (damaged_fails, AreDamaged-replicate n)

request_of_rr_faults_example :
    process_filename_ack opens (λ i. 170) (listening (datagram (rr_packet 3) ∷ [])) ≡ fault
request_of_rr_faults_example =
    request_of_rr_faults 3 opens (λ i. 170) (listening (datagram (rr_packet 3) ∷ [])) [] refl
