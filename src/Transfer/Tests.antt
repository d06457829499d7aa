-- ===== src/Transfer/Tests.antt =====
-- A packet between the two programs.
use cpe464_program.Common.{List, [], ℕ, ◌∷◌}
use cpe464_program.Buffer.{CircularBuffer}

abbrev file : List ℕ
file = 1 ∷ 2 ∷ 3 ∷ []

abbrev waiting : CircularBuffer
waiting = record { entries = []; highest = 0; lowest = 0; current = 0; size = 2; buffer_size = 2 }
