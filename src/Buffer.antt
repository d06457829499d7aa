-- ===== src/Buffer.antt =====
-- buffer.h and buffer.c: the circular buffer of packets that both programs keep.
pub mod Init
pub mod Add
pub mod Refine
pub mod Free
mod Tests
use cpe464_program.Common.{
  ℕ, zero, suc, ◌+◌, ◌-◌, ◌%◌, ◌^◌, Bool, true, false, ◌||◌, ◌&&◌, or_undefined, Option, none, some,
  List, [], ◌∷◌, length, get_elem?, set, replicate, write_at, ltb, leb, ◌==◌, if◌then◌else◌, Run,
  and_then, ok, exit, fault, blocked, out_of_fuel,
}

-- `data`, a block of memory, is `bytes`.
pub record BufferEntry : Type 0 where
  pub bytes : List ℕ
  pub sequence_num : ℕ
  pub valid_flag : Bool
  pub data_len : ℕ

pub record CircularBuffer : Type 0 where
  pub entries : List BufferEntry
  pub highest : ℕ
  pub lowest : ℕ
  pub current : ℕ
  pub size : ℕ
  pub buffer_size : ℕ

-- What `malloc` does in one `buffer_init`: which of its calls fail, and what the blocks hold that it
-- gives. Call 0 is for the array, call `i + 1` for the data of entry `i`.
pub record Memory : Type 0 where
  pub fails : ℕ → Bool
  pub junk : ℕ → ℕ → ℕ
  pub junk_len : ℕ → ℕ

-- A block of `n` bytes.
unfoldable pub block : (ℕ → ℕ) → ℕ → List ℕ
block f zero = []
block f (suc n) = f 0 ∷ block (λ j. f (suc j)) n

abbrev pub fresh_entry : Memory → ℕ → ℕ → BufferEntry
unfolding block
fresh_entry m chunk_size i = record {
  bytes = block (m.junk i) chunk_size;
  sequence_num = 2 ^ 32 - 1;
  valid_flag = false;
  data_len = m.junk_len i;
}

-- The loop of `buffer_init` from entry `i`, with `left` rounds left. A negative size is a huge one for
-- `malloc`, which then fails.
unfoldable pub init_entries : Memory → ℕ → ℕ → ℕ → Run (List BufferEntry)
unfolding block
init_entries m chunk_size i zero = ok []
init_entries m chunk_size i (suc left) =
    let rest = init_entries m chunk_size (i + 1) left in
    if leb (2 ^ 31) chunk_size || m.fails (i + 1)
    then exit 1
    else and_then rest λ l. ok (fresh_entry m chunk_size i ∷ l)

unfoldable pub buffer_init : Memory → ℕ → ℕ → ℕ → Run CircularBuffer
unfolding init_entries
buffer_init m window_size chunk_size highest =
    if leb (2 ^ 31) window_size || m.fails 0
    then exit 1
    else and_then (init_entries m chunk_size 0 window_size) λ l. ok (record {
      entries = l;
      highest = highest;
      lowest = 0;
      current = 0;
      size = window_size;
      buffer_size = chunk_size;
    })

-- The absolute value of an `int`.
abbrev pub magnitude : ℕ → ℕ
magnitude n = if ltb n (2 ^ 31) then n else 2 ^ 32 - n

-- `a % b` of two `int`s as an index: `none` for a division by zero and for a negative remainder, which
-- has the sign of `a`.
unfoldable pub rem_int : ℕ → ℕ → Option ℕ
rem_int a b =
    if b == 0
    then none
    else if ltb a (2 ^ 31) || (magnitude a % magnitude b == 0)
    then some (magnitude a % magnitude b)
    else none

-- The new content of an entry: its block zeroed over `buffer_size` bytes, and the data copied in.
abbrev pub fill : ℕ → ℕ → List ℕ → BufferEntry → BufferEntry
fill buffer_size sequence_num data_bytes e = record {
  bytes = write_at 0 data_bytes (write_at 0 (replicate buffer_size 0) e.bytes);
  sequence_num = sequence_num;
  valid_flag = true;
  data_len = length data_bytes;
}

-- An index outside the array and a copy past the end of a block are undefined.
unfoldable pub buffer_add : CircularBuffer → ℕ → List ℕ → Run CircularBuffer
unfolding rem_int
buffer_add b sequence_num data_bytes =
    and_then (or_undefined (rem_int sequence_num b.size)) λ index.
      and_then (or_undefined (get_elem? b.entries index)) λ e.
        if leb b.buffer_size (length e.bytes) && leb (length data_bytes) (length e.bytes)
        then ok (record b {
          entries = set b.entries index (fill b.buffer_size sequence_num data_bytes e);
        })
        else fault
