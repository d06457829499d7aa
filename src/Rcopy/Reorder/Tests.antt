-- ===== src/Rcopy/Reorder/Tests.antt =====
-- A client with a window of four and blocks of one byte: packet 3 is buffered, and packet 1 comes after it.
use cpe464_program.Common.{
  Ensures-ok, List, [], ap, arith, drop, false, get_elem?, length, ok, refl, some, true, ℕ, ◌*◌,
  ◌-◌, ◌<◌, ◌^◌, ◌∷◌, ◌≡◌,
}
use cpe464_program.Buffer.{BufferEntry, CircularBuffer, Memory, buffer_init}
use cpe464_program.Buffer.Add.{IsShaped, IsShaped-set}
use cpe464_program.Buffer.Init.{IsInitial, IsInitial-IsShaped, buffer_init-IsInitial}
use cpe464_program.Packet.{build_packet, flag_data, header_size}
use cpe464_program.Packet.Fields.{build_packet_fields}
use cpe464_program.Packet.Layout.{build_packet_verifies}
use cpe464_program.Rcopy.{Rcopy, buffering, flush_loop, receive_buffering, zeroed}
use cpe464_program.Rcopy.Reorder.{IsBuffered, flush_writes_leftover, highest_falls_back}

abbrev memory : Memory
memory = record { fails = λ i. false; junk = λ i j. 0; junk_len = λ i. 0 }

abbrev empty_entry : BufferEntry
empty_entry = record { bytes = 0 ∷ []; sequence_num = 2 ^ 32 - 1; valid_flag = false; data_len = 0 }

abbrev empty_buffer : CircularBuffer
empty_buffer = record {
  entries = empty_entry ∷ empty_entry ∷ empty_entry ∷ empty_entry ∷ [];
  highest = 0;
  lowest = 0;
  current = 0;
  size = 4;
  buffer_size = 1;
}

empty_buffer_made : buffer_init memory 4 1 0 ≡ ok empty_buffer
unfolding buffer_init
empty_buffer_made = refl

empty_buffer-IsShaped : IsShaped empty_buffer
empty_buffer-IsShaped = IsInitial-IsShaped (omega arith) (
    Ensures-ok (IsInitial 4 1 0) (buffer_init memory 4 1 0) empty_buffer empty_buffer_made
      (buffer_init-IsInitial memory 4 1 0))

abbrev third : BufferEntry
third = record { bytes = 33 ∷ []; sequence_num = 3; valid_flag = true; data_len = 1 }

abbrev holding : ℕ → Rcopy
holding current = record {
  net = record {
    poll_set = record { descriptors = []; max_descriptor = 4; set_size = 10 };
    answers = [];
    arrivals = [];
    sent = [];
  };
  buffer = record empty_buffer {
    entries = empty_entry ∷ empty_entry ∷ empty_entry ∷ third ∷ [];
    highest = 3;
    current = current;
  };
  out_file = [];
  eof_seq_num = 0;
}

holding-IsShaped : (current : ℕ) → IsShaped (holding current).buffer
holding-IsShaped current =
    let v = IsShaped-set 3 third empty_buffer-IsShaped refl in
    record { nonempty = v.nonempty; small = v.small; count = v.count; blocks = v.blocks }

abbrev late : List ℕ
late = build_packet 1 flag_data (11 ∷ [])

highest_falls_back_example :
    (t : Rcopy) × (receive_buffering late (holding 0) ≡ ok (buffering, t))
    × IsBuffered (holding 0) 1 (drop header_size late) t
    × (get_elem? t.buffer.entries 3 ≡ some third)
    × (t.buffer.highest < 3)
highest_falls_back_example =
    let (number, marked, content, long) =
      build_packet_fields zeroed 1 flag_data (11 ∷ []) (omega arith) in
    highest_falls_back late 1 (holding 0) third (holding-IsShaped 0) refl refl (omega arith)
      (build_packet_verifies 1 flag_data (11 ∷ []) (omega arith) (omega arith) (omega arith))
      (λ e. omega arith) number (omega arith) (omega (arith, ap length content)) (omega arith)
      (omega arith) (omega arith)

-- What is left of packet 3 when packet 7 is due.
flush_writes_leftover_example :
    (t : Rcopy) × (flush_loop 5 (holding 7) ≡ ok (tt, t))
    × (t.out_file ≡ 33 ∷ [])
    × (t.buffer.current ≡ 8)
flush_writes_leftover_example =
    flush_writes_leftover (λ k. (11 * k) ∷ []) 3 3 (holding 7) third empty_entry
      (holding-IsShaped 7) (omega arith) (omega arith) refl refl (omega arith) refl refl refl refl
