-- ===== src/Server/Tests.antt =====
-- A child of server.c that sends three bytes in blocks of two, with a window of two.
mod Blocks
mod Waiting
mod Trouble
use cpe464_program.Common.{
  Bool, Ensures-ok, List, [], arith, false, ok, ok-injective, refl, subst, sym, true, ℕ, ◌-◌, ◌>>=◌,
  ◌^◌, ◌∙◌, ◌∷◌, ◌≡◌,
}
use cpe464_program.Buffer.{BufferEntry, CircularBuffer, Memory, buffer_add, buffer_init}
use cpe464_program.Buffer.Init.{IsInitial, buffer_init-IsInitial}
use cpe464_program.Net.{Net, safe_sendto}
use cpe464_program.Packet.{build_packet, flag_data, rr_packet}
use cpe464_program.Packet.Fields.{control_packet_fields}
use cpe464_program.Server.{Server, entry_payload, read_file_to_buffer, send_data, send_read}
use cpe464_program.Server.Blocks.{IsServing, IsServing-net, start-IsServing}
use cpe464_program.Server.Blocks.Send.{send_next}
use cpe464_program.Server.Outstanding.{IsDue, IsWindowed}
use cpe464_program.Server.Waiting.{timeouts}

abbrev pub memory : Memory
memory = record { fails = λ i. false; junk = λ i j. 7; junk_len = λ i. 9 }

abbrev pub empty_entry : BufferEntry
empty_entry = record {
  bytes = 7 ∷ 7 ∷ [];
  sequence_num = 2 ^ 32 - 1;
  valid_flag = false;
  data_len = 9;
}

abbrev pub window : CircularBuffer
window = record {
  entries = empty_entry ∷ empty_entry ∷ [];
  highest = 2;
  lowest = 0;
  current = 0;
  size = 2;
  buffer_size = 2;
}

pub window_made : buffer_init memory 2 2 2 ≡ ok window
unfolding buffer_init
window_made = refl

pub window-IsInitial : IsInitial 2 2 2 window
window-IsInitial =
    Ensures-ok (IsInitial 2 2 2) (buffer_init memory 2 2 2) window window_made
      (buffer_init-IsInitial memory 2 2 2)

abbrev pub three_bytes : List ℕ
three_bytes = 1 ∷ 2 ∷ 3 ∷ []

abbrev pub quiet : Net
quiet = record {
  poll_set = record { descriptors = []; max_descriptor = 4; set_size = 10 };
  answers = [];
  arrivals = [];
  sent = [];
}

abbrev pub first : Server
first = record { net = quiet; window = window; export_file = three_bytes }

abbrev pub one_sent : Server
one_sent = record {
  net = record quiet { sent = build_packet 0 flag_data (1 ∷ 2 ∷ []) ∷ [] };
  window = record window {
    entries =
        (record { bytes = 1 ∷ 2 ∷ []; sequence_num = 0; valid_flag = true; data_len = 2 })
        ∷ empty_entry
        ∷ [];
    current = 1;
  };
  export_file = 3 ∷ [];
}

pub first-IsServing : IsServing 2 three_bytes first
first-IsServing = start-IsServing 2 three_bytes quiet (omega arith) window-IsInitial

pub first_sends : (read_file_to_buffer >>= send_read) first ≡ ok (false, one_sent)
unfolding read_file_to_buffer send_data buffer_add safe_sendto entry_payload
first_sends = refl

pub one_sent-IsServing : IsServing 2 three_bytes one_sent
one_sent-IsServing =
    let (t, e, v, c, k, d) =
      send_next 2 three_bytes (omega arith) first first-IsServing (omega arith) (omega arith) in
    let same : (false, t) ≡ (false, one_sent) = ok-injective (sym e ∙ first_sends) in
    subst (λ (r : Bool × Server). IsServing 2 three_bytes r.1) same v

abbrev pub no_file : Server
no_file = record { net = quiet; window = window; export_file = [] }

abbrev pub two_sent : Server
two_sent = record {
  net = record quiet {
    sent = build_packet 0 flag_data (1 ∷ 2 ∷ []) ∷ build_packet 1 flag_data (3 ∷ []) ∷ [];
  };
  window = record window {
    entries =
        (record { bytes = 1 ∷ 2 ∷ []; sequence_num = 0; valid_flag = true; data_len = 2 })
        ∷ (record { bytes = 3 ∷ 0 ∷ []; sequence_num = 1; valid_flag = true; data_len = 1 })
        ∷ [];
    current = 2;
  };
  export_file = [];
}

pub second_sends : (read_file_to_buffer >>= send_read) one_sent ≡ ok (false, two_sent)
unfolding read_file_to_buffer send_data buffer_add safe_sendto entry_payload
second_sends = refl

pub two_sent-IsServing : IsServing 2 three_bytes two_sent
two_sent-IsServing =
    let (t, e, v, c, k, d) =
      send_next 2 three_bytes (omega arith) one_sent one_sent-IsServing (omega arith)
        (omega arith) in
    let same : (false, t) ≡ (false, two_sent) = ok-injective (sym e ∙ second_sends) in
    subst (λ (r : Bool × Server). IsServing 2 three_bytes r.1) same v

-- The same with the client gone silent.
abbrev pub forsaken : Server
forsaken = record two_sent { net = record quiet { answers = timeouts 10 [] } }

pub forsaken-IsServing : IsServing 2 three_bytes forsaken
forsaken-IsServing =
    IsServing-net 2 three_bytes two_sent (record quiet { answers = timeouts 10 [] })
      two_sent-IsServing

-- Both blocks are acknowledged, and a damaged acknowledgement comes.
abbrev pub idle : Server
idle = record two_sent { window = record two_sent.window { lowest = 2; highest = 4 } }

pub two_sent-IsWindowed : IsWindowed 2 three_bytes (omega arith) two_sent
two_sent-IsWindowed = record {
  serving = two_sent-IsServing;
  room = omega arith;
  low = omega arith;
  near = omega arith;
  high = omega arith;
}

pub rr-IsDue : IsDue 2 three_bytes (omega arith) (λ i. 0) two_sent (rr_packet 1)
rr-IsDue =
    let (srej_number, number, srej_flag, marked) = control_packet_fields (λ i. 0) 1 (omega arith) in
    record {
      damaged = λ bad. omega arith;
      moves = λ good flag. (omega arith, omega (arith, number));
      asks = λ good flag. (omega arith, omega (arith, number));
    }
