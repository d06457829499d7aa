-- ===== src/Buffer/Refine.antt =====
-- buffer.c: the circular buffer is a map from sequence numbers to packets that forgets a packet when
-- another one of the same remainder by the size is added.
use native.Mathlib.Decide.{ℕ_discrete}
use cpe464_program.Common.{
  All, Ensures, Ensures-and_then, List, Option, Run, [], and_then, arith, eq→==, get_elem?,
  if◌then◌else◌, length, ne→==, none, ok, refl, some, subst, take, ℕ, ◌%◌, ◌&&◌, ◌<◌, ◌==◌, ◌^◌,
  ◌∙◌, ◌∷◌, ◌≡◌, ◌≤◌,
}
use cpe464_program.Buffer.{BufferEntry, CircularBuffer, Memory, buffer_add, buffer_init}
use cpe464_program.Buffer.Add.{IsShaped, IsStored, buffer_add_stores}
use cpe464_program.Buffer.Init.{IsInitial, IsInitial-IsShaped, buffer_init-IsInitial}

abbrev pub PacketMap : Type 0
PacketMap = ℕ → Option (List ℕ)

abbrev pub no_packets : PacketMap
no_packets n = none

abbrev pub keep : ℕ → ℕ → List ℕ → PacketMap → PacketMap
keep size seq_num data_bytes m n =
    if n % size == seq_num % size then (if n == seq_num then some data_bytes else none) else m n

-- The packet of a number that a buffer holds.
abbrev pub held_in : Option BufferEntry → ℕ → Option (List ℕ)
held_in none n = none
held_in (some e) n =
    if e.valid_flag && e.sequence_num == n then some (take e.data_len e.bytes) else none

abbrev pub held : CircularBuffer → ℕ → Option (List ℕ)
held b n = held_in (get_elem? b.entries (n % b.size)) n

abbrev pub Implements : CircularBuffer → PacketMap → Type 0
Implements b m = (n : ℕ) → held b n ≡ m n

held-IsStored :
    (b b' : CircularBuffer) (seq_num : ℕ) (data_bytes : List ℕ) (m : PacketMap)
    → IsStored b seq_num data_bytes b'
    → Implements b m
    → Implements b' (keep b.size seq_num data_bytes m)
held-IsStored b b' seq_num data_bytes m v h n =
    let same_size : b'.size ≡ b.size = v.counters.3 in
    elim (ℕ_discrete (n % b.size) (seq_num % b.size)) [
      | yes same ↦
          rw
            (
              same_size,
              same,
              v.found,
              v.valid,
              v.numbered,
              eq→== (seq_num % b.size) (seq_num % b.size) refl,
            )
            (rw v.content (ground arith))
      | no other ↦
          rw (same_size, v.others (n % b.size) other, ne→== (n % b.size) (seq_num % b.size) other)
            (h n)
    ]

-- One `buffer_add` after the other, and what they mean for the map.
abbrev pub add_all : CircularBuffer → List (ℕ × List ℕ) → Run CircularBuffer
add_all b [] = ok b
add_all b ((seq_num, data_bytes) ∷ packets) =
    and_then (buffer_add b seq_num data_bytes) λ b'. add_all b' packets

abbrev pub keep_all : ℕ → List (ℕ × List ℕ) → PacketMap → PacketMap
keep_all size [] m = m
keep_all size ((seq_num, data_bytes) ∷ packets) m =
    keep_all size packets (keep size seq_num data_bytes m)

-- Numbers that are `int`s and not negative, and data that fits a block.
abbrev pub FitBlocks : ℕ → List (ℕ × List ℕ) → Type 0
FitBlocks buffer_size packets =
    All (λ (p : ℕ × List ℕ). (p.0 < 2 ^ 31) × (length p.1 ≤ buffer_size)) packets

-- A buffer of these sizes that implements a map.
abbrev pub HoldsMap : ℕ → ℕ → PacketMap → CircularBuffer → Type 0
HoldsMap size buffer_size m b =
    IsShaped b × (b.size ≡ size) × (b.buffer_size ≡ buffer_size) × Implements b m

pub add_all-HoldsMap :
    (size buffer_size : ℕ) (packets : List (ℕ × List ℕ)) (m : PacketMap) (b : CircularBuffer)
    → HoldsMap size buffer_size m b
    → FitBlocks buffer_size packets
    → (b' : CircularBuffer) × (add_all b packets ≡ ok b')
      × HoldsMap size buffer_size (keep_all size packets m) b'
add_all-HoldsMap size buffer_size [] m b v fit = (b, refl, v)
add_all-HoldsMap size buffer_size ((n, data_bytes) ∷ packets) m b v fit =
    let (b1, e, stored) = buffer_add_stores n data_bytes v.0 fit.0.0 (omega (arith, fit.0, v.2)) in
    let kept : Implements b1 (keep size n data_bytes m) =
      subst (λ k. Implements b1 (keep k n data_bytes m)) v.1
        (held-IsStored b b1 n data_bytes m stored v.3) in
    let next : HoldsMap size buffer_size (keep size n data_bytes m) b1 =
      (stored.shaped, stored.counters.3 ∙ v.1, stored.counters.4 ∙ v.2, kept) in
    let (b2, e2, h) =
      add_all-HoldsMap size buffer_size packets (keep size n data_bytes m) b1 next fit.1 in
    (b2, rw e e2, h)

-- A new buffer holds nothing.
IsInitial-HoldsMap :
    (size buffer_size highest : ℕ) (b : CircularBuffer)
    → 0 < size
    → IsInitial size buffer_size highest b
    → HoldsMap size buffer_size no_packets b
IsInitial-HoldsMap size buffer_size highest b pos v = (
  IsInitial-IsShaped pos v,
  v.sizes.0,
  v.sizes.1,
  λ n. empty n (get_elem? b.entries (n % b.size)) refl,
)
  where
    empty :
        (n : ℕ) (o : Option BufferEntry) → get_elem? b.entries (n % b.size) ≡ o → held_in o n ≡ none
    empty n none e = refl
    empty n (some x) e = rw (v.empty (n % b.size) x e).0 refl

-- If buffer_init with at least one entry does not end the process, then buffer_add of any packets
-- that fit a block, with non-negative numbers, one after the other, does nothing undefined, and the
-- buffer then implements the map from numbers to packets that begins empty and in which each packet
-- takes the place of those whose numbers leave the same remainder by the size.
pub buffer_refines_map :
    (memory : Memory) (size buffer_size highest : ℕ) (packets : List (ℕ × List ℕ))
    → 0 < size
    → FitBlocks buffer_size packets
    → Ensures
        (λ b. HoldsMap size buffer_size (keep_all size packets no_packets) b)
        (and_then (buffer_init memory size buffer_size highest) (λ b. add_all b packets))
buffer_refines_map memory size buffer_size highest packets pos fit =
    Ensures-and_then (IsInitial size buffer_size highest)
      (HoldsMap size buffer_size (keep_all size packets no_packets))
      (buffer_init memory size buffer_size highest) (λ b. add_all b packets)
      (buffer_init-IsInitial memory size buffer_size highest)
      λ b v.
        let (b', e, h) =
          add_all-HoldsMap size buffer_size packets no_packets b
            (IsInitial-HoldsMap size buffer_size highest b pos v) fit in
        rw e h
