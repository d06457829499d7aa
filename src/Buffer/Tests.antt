-- ===== src/Buffer/Tests.antt =====
-- A buffer of two entries for blocks of three bytes.
use cpe464_program.Common.{
  Ensures, Ensures-ok, List, [], and_then, arith, false, fault, none, ok, refl, some, ℕ, ◌+◌, ◌-◌,
  ◌^◌, ◌∷◌, ◌≡◌,
}
use cpe464_program.Buffer.{CircularBuffer, Memory, buffer_add, buffer_init}
use cpe464_program.Buffer.Add.{IsShaped}
use cpe464_program.Buffer.Init.{IsInitial, IsInitial-IsShaped, buffer_init-IsInitial}
use cpe464_program.Buffer.Refine.{HoldsMap, add_all, buffer_refines_map, keep_all, no_packets}

abbrev memory : Memory
memory = record { fails = λ i. false; junk = λ i j. i + j; junk_len = λ i. 9 }

abbrev two_entries : CircularBuffer
two_entries = record {
  entries =
      (record {
        bytes = 0 ∷ 1 ∷ 2 ∷ [];
        sequence_num = 2 ^ 32 - 1;
        valid_flag = false;
        data_len = 9;
      })
      ∷ (record {
        bytes = 1 ∷ 2 ∷ 3 ∷ [];
        sequence_num = 2 ^ 32 - 1;
        valid_flag = false;
        data_len = 9;
      })
      ∷ [];
  highest = 0;
  lowest = 0;
  current = 0;
  size = 2;
  buffer_size = 3;
}

two_entries_made : buffer_init memory 2 3 0 ≡ ok two_entries
unfolding buffer_init
two_entries_made = refl

two_entries-IsShaped : IsShaped two_entries
two_entries-IsShaped = IsInitial-IsShaped (omega arith) (
    Ensures-ok (IsInitial 2 3 0) (buffer_init memory 2 3 0) two_entries two_entries_made
      (buffer_init-IsInitial memory 2 3 0))

-- The index of a negative number is undefined, and so is any index of a buffer without entries.
negative_index : buffer_add two_entries (2 ^ 32 - 1) (8 ∷ []) ≡ fault
unfolding buffer_add
negative_index = refl

-- The packet of number 3 takes the place of the one of number 5.
abbrev packets : List (ℕ × List ℕ)
packets = (4, 1 ∷ []) ∷ (5, 2 ∷ []) ∷ (3, 3 ∷ []) ∷ []

buffer_refines_map_example :
    Ensures
      (λ b. HoldsMap 2 3 (keep_all 2 packets no_packets) b)
      (and_then (buffer_init memory 2 3 0) (λ b. add_all b packets))
buffer_refines_map_example =
    buffer_refines_map memory 2 3 0 packets (omega arith)
      ((omega arith), ((omega arith), ((omega arith), tt)))

forgotten :
    (keep_all 2 packets no_packets 5 ≡ none) × (keep_all 2 packets no_packets 4 ≡ some (1 ∷ []))
forgotten = (refl, refl)
