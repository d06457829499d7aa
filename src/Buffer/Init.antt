-- ===== src/Buffer/Init.antt =====
-- `buffer_init` of buffer.c.
use cpe464_program.Common.{
  Bool-cases, Ensures, Ensures-and_then, List, ap, arith, false, get_elem?, inl, inr, leb, length,
  ok, refl, some, suc, sym, zero, ℕ, ◌+◌, ◌<◌, ◌^◌, ◌||◌, ◌∙◌, ◌∷◌, ◌≡◌,
}
use cpe464_program.Buffer.{
  BufferEntry, CircularBuffer, Memory, block, buffer_init, fresh_entry, init_entries,
}
use cpe464_program.Buffer.Add.{IsShaped}

length-block : (f : ℕ → ℕ) (n : ℕ) → length (block f n) ≡ n
unfolding block
length-block f zero = refl
length-block f (suc n) = ap suc (length-block (λ j. f (suc j)) n)

-- Every entry is marked invalid and has a block of the full size.
abbrev IsFresh : ℕ → List BufferEntry → Type 0
IsFresh chunk_size entries =
    (i : ℕ) (e : BufferEntry)
    → get_elem? entries i ≡ some e
    → (e.valid_flag ≡ false) × (length e.bytes ≡ chunk_size)

IsFresh-cons :
    (m : Memory) (chunk_size i : ℕ) (l : List BufferEntry)
    → IsFresh chunk_size l
    → IsFresh chunk_size (fresh_entry m chunk_size i ∷ l)
unfolding fresh_entry
IsFresh-cons m chunk_size i l v zero e p =
    let one : fresh_entry m chunk_size i ≡ e = cc in
    rw (← one) (refl, length-block (m.junk i) chunk_size)
IsFresh-cons m chunk_size i l v (suc j) e p = v j e p

init_entries_lem :
    (m : Memory) (chunk_size i left : ℕ)
    → Ensures (λ l. (length l ≡ left) × IsFresh chunk_size l) (init_entries m chunk_size i left)
unfolding init_entries
init_entries_lem m chunk_size i zero = (refl, λ j e p. absurd (cc))
init_entries_lem m chunk_size i (suc left) =
    elim (Bool-cases (leb (2 ^ 31) chunk_size || m.fails (i + 1))) [
      | inl out_of_memory ↦ rw out_of_memory tt
      | inr given ↦ rw given (
          Ensures-and_then (λ l. (length l ≡ left) × IsFresh chunk_size l)
            (λ l. (length l ≡ suc left) × IsFresh chunk_size l)
            (init_entries m chunk_size (i + 1) left) (λ l. ok (fresh_entry m chunk_size i ∷ l))
            (init_entries_lem m chunk_size (i + 1) left)
            (λ l h. (ap suc h.0, IsFresh-cons m chunk_size i l h.1)))
    ]

-- What `buffer_init` sets up.
pub record IsInitial (window_size chunk_size highest : ℕ) (b : CircularBuffer) : Type 0 where
  pub small : window_size < 2 ^ 31
  pub count : length b.entries ≡ window_size
  pub empty :
      (i : ℕ) (e : BufferEntry)
      → get_elem? b.entries i ≡ some e
      → (e.valid_flag ≡ false) × (length e.bytes ≡ chunk_size)
  pub sizes : (b.size ≡ window_size) × (b.buffer_size ≡ chunk_size)
  pub counters : (b.current ≡ 0) × (b.lowest ≡ 0) × (b.highest ≡ highest)

-- Whatever the memory holds, buffer_init either ends the process or returns a buffer of
-- `window_size` invalid entries, each with a block of `chunk_size` bytes, and with counters at 0 but
-- for `highest`.
pub buffer_init-IsInitial :
    (m : Memory) (window_size chunk_size highest : ℕ)
    → Ensures
        (IsInitial window_size chunk_size highest)
        (buffer_init m window_size chunk_size highest)
unfolding buffer_init
buffer_init-IsInitial m window_size chunk_size highest =
    elim (Bool-cases (leb (2 ^ 31) window_size || m.fails 0)) [
      | inl out_of_memory ↦ rw out_of_memory tt
      | inr given ↦ rw given (
          Ensures-and_then (λ l. (length l ≡ window_size) × IsFresh chunk_size l)
            (IsInitial window_size chunk_size highest) (init_entries m chunk_size 0 window_size) _
            (init_entries_lem m chunk_size 0 window_size)
            (λ l h. record {
              small = ground (arith, given);
              count = h.0;
              empty = h.1;
              sizes = (refl, refl);
              counters = (refl, refl, refl);
            }))
    ]

pub IsInitial-IsShaped :
    {window_size chunk_size highest : ℕ} {b : CircularBuffer}
    → 0 < window_size
    → IsInitial window_size chunk_size highest b
    → IsShaped b
IsInitial-IsShaped pos v = record {
  nonempty = omega (arith, v.sizes);
  small = omega (arith, v.sizes, v.small);
  count = v.count ∙ sym v.sizes.0;
  blocks = λ i e p. (v.empty i e p).1 ∙ sym v.sizes.1;
}
