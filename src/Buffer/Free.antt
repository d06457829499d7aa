-- ===== src/Buffer/Free.antt =====
-- buffer.c: `buffer_free`. The heap is the list of the blocks that are in use, by their addresses: `buff` is
-- that of the struct, and that of a block of `buffer_init` is the number of the call that gave it.
use cpe464_program.Common.{
  Ensures-ok, List, Run, [], and_then, arith, eq→==, fault, get_elem?, get_elem?_of_lt,
  if◌then◌else◌, length, ltb, lt→ltb, ok, or_undefined, refl, suc, zero, ℕ, ◌++◌, ◌+◌, ◌==◌, ◌^◌,
  ◌∷◌, ◌≡◌, ◌≤◌,
}
use cpe464_program.Buffer.{BufferEntry, CircularBuffer, Memory, buffer_init}
use cpe464_program.Buffer.Init.{IsInitial, buffer_init-IsInitial}

-- `free` of a block that is not in use is undefined.
unfoldable pub free : ℕ → List ℕ → Run (List ℕ)
free address [] = fault
free address (used ∷ heap) =
    let rest = free address heap in
    if address == used then ok heap else and_then rest λ l. ok (used ∷ l)

-- The loop of `buffer_free` from entry `i`, with `left` rounds left; an entry past the array is out of
-- bounds.
unfoldable pub free_entries : List BufferEntry → ℕ → ℕ → List ℕ → Run (List ℕ)
unfolding free
free_entries entries i zero heap = ok heap
free_entries entries i (suc left) heap =
    and_then (or_undefined (get_elem? entries i))
      λ e. and_then (free (i + 1) heap) λ rest. free_entries entries (i + 1) left rest

-- With a negative size there is no round.
unfoldable pub buffer_free : ℕ → CircularBuffer → List ℕ → Run (List ℕ)
unfolding free_entries
buffer_free buff b heap =
    and_then (free_entries b.entries 0 (if ltb b.size (2 ^ 31) then b.size else 0) heap)
      λ data_freed. and_then (free 0 data_freed) λ array_freed. free buff array_freed

-- The blocks for the data of `left` entries from `i` on.
abbrev data_blocks : ℕ → ℕ → List ℕ
data_blocks i zero = []
data_blocks i (suc left) = (i + 1) ∷ data_blocks (i + 1) left

free-head : (address : ℕ) (heap : List ℕ) → free address (address ∷ heap) ≡ ok heap
unfolding free
free-head address heap = rw (eq→== address address refl)

free_entries_lem :
    (entries : List BufferEntry) (i left : ℕ) (rest : List ℕ)
    → i + left ≤ length entries
    → free_entries entries i left (data_blocks i left ++ rest) ≡ ok rest
unfolding free_entries
free_entries_lem entries i zero rest h = refl
free_entries_lem entries i (suc left) rest h =
    let (e, found) = get_elem?_of_lt entries i (omega arith) in
    rw (found, free-head (i + 1) (data_blocks (i + 1) left ++ rest))
      (free_entries_lem entries (i + 1) left rest (omega arith))

-- If buffer_init returns, buffer_free gives back exactly what it and the caller allocated: the data of every
-- entry, the array, and the struct. Nothing is freed twice, and no other block is touched.
pub buffer_free_all :
    (m : Memory) (window_size chunk_size highest buff : ℕ) (b : CircularBuffer) (rest : List ℕ)
    → buffer_init m window_size chunk_size highest ≡ ok b
    → buffer_free buff b (data_blocks 0 window_size ++ (0 ∷ buff ∷ rest)) ≡ ok rest
unfolding buffer_free
buffer_free_all m window_size chunk_size highest buff b rest made =
    let v =
      Ensures-ok (IsInitial window_size chunk_size highest)
        (buffer_init m window_size chunk_size highest) b made
        (buffer_init-IsInitial m window_size chunk_size highest) in
    rw
      (
        v.sizes.0,
        lt→ltb window_size (2 ^ 31) v.small,
        free_entries_lem b.entries 0 window_size (0 ∷ buff ∷ rest) (omega (arith, v.count)),
      )
      (free-head buff rest)
