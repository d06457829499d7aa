-- ===== src/Transfer/Lockstep/Tests.antt =====
-- Three bytes in two rounds, in blocks of two bytes with a window of two.
use cpe464_program.Common.{
  List, [], arith, false, length, ok, refl, suc, zero, ℕ, ◌-◌, ◌<◌, ◌^◌, ◌∷◌, ◌≡◌,
}
use cpe464_program.Buffer.{BufferEntry, CircularBuffer, Memory, buffer_init}
use cpe464_program.Net.{Net}
use cpe464_program.Rcopy.{Rcopy}
use cpe464_program.Rcopy.Delivery.File.{block_of, start}
use cpe464_program.Server.{Server}
use cpe464_program.Transfer.Lockstep.{Rounds, lockstep_delivers}

abbrev memory : Memory
memory = record { fails = λ i. false; junk = λ i j. 7; junk_len = λ i. 9 }

abbrev entry : BufferEntry
entry = record { bytes = 7 ∷ 7 ∷ []; sequence_num = 2 ^ 32 - 1; valid_flag = false; data_len = 9 }

abbrev window_to : ℕ → CircularBuffer
window_to highest = record {
  entries = entry ∷ entry ∷ [];
  highest = highest;
  lowest = 0;
  current = 0;
  size = 2;
  buffer_size = 2;
}

server_window_made : buffer_init memory 2 2 2 ≡ ok (window_to 2)
unfolding buffer_init
server_window_made = refl

client_buffer_made : buffer_init memory 2 2 0 ≡ ok (window_to 0)
unfolding buffer_init
client_buffer_made = refl

abbrev three_bytes : List ℕ
three_bytes = 1 ∷ 2 ∷ 3 ∷ []

abbrev idle_net : Net
idle_net = record {
  poll_set = record { descriptors = []; max_descriptor = 4; set_size = 10 };
  answers = [];
  arrivals = [];
  sent = [];
}

blocks_exist : (k : ℕ) → k < 2 → 0 < length (block_of 2 three_bytes k)
blocks_exist zero h = omega arith
blocks_exist (suc zero) h = omega arith
blocks_exist (suc (suc k)) h = absurd (omega arith)

lockstep_delivers_example :
    let s : Server = record { net = idle_net; window = window_to 2; export_file = three_bytes } in
    (s' : Server) × (c' : Rcopy) × Rounds (λ i. 0) s (start (window_to 0) idle_net) 2 s' c'
    × (c'.out_file ≡ three_bytes)
    × (c'.buffer.current ≡ 2)
    × (s'.window.current ≡ 2)
    × (s'.window.lowest ≡ 2)
lockstep_delivers_example =
    lockstep_delivers 2 three_bytes (omega arith) (omega arith) 2 (λ i. 0) 2 memory memory
      (window_to 2) (window_to 0) idle_net idle_net (omega arith) (omega arith) (omega arith)
      blocks_exist server_window_made client_buffer_made
