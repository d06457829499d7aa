-- ===== src/Buffer/Add.antt =====
-- `buffer_add` of buffer.c on a well-formed buffer.
use native.Mathlib.Decide.{ℕ_discrete}
use cpe464_program.Common.{
  ℕ, ◌%◌, ◌^◌, ◌≤◌, ◌<◌, ◌≡◌, refl, sym, ◌∙◌, ◌≢◌, true, some, List, length, get_elem?, set, take,
  replicate, write_at, ok, arith, length-set, length-write_at, take-write_at, get_elem?-set_self,
  get_elem?-set_ne, get_elem?_of_lt, lt_of_get_elem?,
}
use cpe464_program.Buffer.{BufferEntry, CircularBuffer, buffer_add, rem_int, fill}

-- The buffer has `size` entries, at least one, and each block has `buffer_size` bytes.
pub record IsShaped (b : CircularBuffer) : Type 0 where
  pub nonempty : 0 < b.size
  pub small : b.size < 2 ^ 31
  pub count : length b.entries ≡ b.size
  pub blocks :
      (i : ℕ) (e : BufferEntry) → get_elem? b.entries i ≡ some e → length e.bytes ≡ b.buffer_size

pub rem_int_lem : (a b : ℕ) → a < 2 ^ 31 → 0 < b → b < 2 ^ 31 → rem_int a b ≡ some (a % b)
unfolding rem_int
rem_int_lem a b ha hb hs = ground arith

pub length-fill :
    (n seq_num : ℕ) (data_bytes : List ℕ) (e : BufferEntry)
    → length (fill n seq_num data_bytes e).bytes ≡ length e.bytes
length-fill n seq_num data_bytes e =
    length-write_at 0 data_bytes (write_at 0 (replicate n 0) e.bytes)
    ∙ length-write_at 0 (replicate n 0) e.bytes

-- The bytes that are read back from a filled entry are those that were put in.
pub take-fill :
    (n seq_num : ℕ) (data_bytes : List ℕ) (e : BufferEntry)
    → length data_bytes ≤ length e.bytes
    → take (length data_bytes) (fill n seq_num data_bytes e).bytes ≡ data_bytes
take-fill n seq_num data_bytes e h =
    take-write_at data_bytes (write_at 0 (replicate n 0) e.bytes)
      (omega (arith, length-write_at 0 (replicate n 0) e.bytes))

-- A change of one entry that keeps the length of its block keeps the shape.
pub IsShaped-set :
    {b : CircularBuffer} (index : ℕ) (e : BufferEntry)
    → IsShaped b
    → length e.bytes ≡ b.buffer_size
    → IsShaped (record b { entries = set b.entries index e })
IsShaped-set {b} index e v h = record {
  nonempty = v.nonempty;
  small = v.small;
  count = length-set b.entries index e ∙ v.count;
  blocks = λ i x p. elim (ℕ_discrete index i) [
    | yes same ↦ ground (
      arith,
      length-set b.entries index e,
      lt_of_get_elem? (set b.entries index e) i x p,
      get_elem?-set_self b.entries index e,
    )
    | no other ↦ v.blocks i x (sym (get_elem?-set_ne b.entries index i e other) ∙ p)
  ];
}

-- What `buffer_add` returns.
pub buffer_add_lem :
    {b : CircularBuffer} (seq_num : ℕ) (data_bytes : List ℕ)
    → IsShaped b
    → seq_num < 2 ^ 31
    → length data_bytes ≤ b.buffer_size
    → (e : BufferEntry) × (get_elem? b.entries (seq_num % b.size) ≡ some e)
      × (buffer_add b seq_num data_bytes
          ≡ ok (record b {
            entries = set b.entries (seq_num % b.size) (fill b.buffer_size seq_num data_bytes e);
          }))
unfolding buffer_add
buffer_add_lem {b} seq_num data_bytes v h fits =
    let in_range : seq_num % b.size < length b.entries = omega arith in
    let (e, p) = get_elem?_of_lt b.entries (seq_num % b.size) in_range in
    (e, p, ground (arith, rem_int_lem seq_num b.size, v.blocks (seq_num % b.size) e p))

-- `b'` is `b` with the packet stored at its index and nothing else changed.
pub record IsStored (b : CircularBuffer) (seq_num : ℕ) (data_bytes : List ℕ) (b' : CircularBuffer)
    : Type 0 where
  pub shaped : IsShaped b'
  pub entry : BufferEntry
  pub found : get_elem? b'.entries (seq_num % b.size) ≡ some entry
  pub valid : entry.valid_flag ≡ true
  pub numbered : entry.sequence_num ≡ seq_num
  pub content : take entry.data_len entry.bytes ≡ data_bytes
  pub fits : entry.data_len ≤ length entry.bytes
  pub others : (i : ℕ) → i ≢ seq_num % b.size → get_elem? b'.entries i ≡ get_elem? b.entries i
  pub counters :
      (b'.current ≡ b.current)
      × (b'.highest ≡ b.highest)
      × (b'.lowest ≡ b.lowest)
      × (b'.size ≡ b.size)
      × (b'.buffer_size ≡ b.buffer_size)

-- In a well-shaped buffer, buffer_add of a packet that fits a block, with a non-negative number,
-- returns: the packet is read back at the index of its number, valid and with its number and length,
-- the other entries and the counters stay, and the buffer keeps its shape.
pub buffer_add_stores :
    {b : CircularBuffer} (seq_num : ℕ) (data_bytes : List ℕ)
    → IsShaped b
    → seq_num < 2 ^ 31
    → length data_bytes ≤ b.buffer_size
    → (b' : CircularBuffer) × (buffer_add b seq_num data_bytes ≡ ok b')
      × IsStored b seq_num data_bytes b'
buffer_add_stores {b} seq_num data_bytes v h fits =
    let (e, p, q) = buffer_add_lem seq_num data_bytes v h fits in
    let index = seq_num % b.size in
    let full = v.blocks index e p in
    let stored = fill b.buffer_size seq_num data_bytes e in
    (
      record b { entries = set b.entries index stored },
      q,
      record {
        shaped =
            IsShaped-set index stored v (length-fill b.buffer_size seq_num data_bytes e ∙ full);
        entry = stored;
        found = get_elem?-set_self b.entries index stored (lt_of_get_elem? b.entries index e p);
        valid = refl;
        numbered = refl;
        fits = omega (arith, length-fill b.buffer_size seq_num data_bytes e);
        content = take-fill b.buffer_size seq_num data_bytes e (omega arith);
        others = λ i ne. get_elem?-set_ne b.entries index i stored (λ same. ne (sym same));
        counters = (refl, refl, refl, refl, refl);
      },
    )
