-- ===== src/Rcopy/Delivery/Entries.antt =====
-- How the invariant moves from one buffer to the next.
use native.Mathlib.Decide.{ℕ_discrete}
use native.Mathlib.Numerals.{add-one}
use cpe464_program.Common.{
  Bool, List, ap, ap₂, arith, false, get_elem?, incr, length, ok, refl, slt, slt_of_le, some, subst,
  suc, sym, true, ℕ, ◌%◌, ◌&&◌, ◌++◌, ◌+◌, ◌<◌, ◌^◌, ◌∙◌, ◌≡◌, ◌≢◌, ◌≤◌,
}
use cpe464_program.Buffer.{CircularBuffer, buffer_add}
use cpe464_program.Buffer.Add.{IsStored, buffer_add_stores}
use cpe464_program.Rcopy.{RecvState, buffering, finished}
use cpe464_program.Rcopy.Delivery.{IsFaithful, IsHeld, Waits, written}

-- The client goes on, unless the packet is an EOF that is behind the current number.
pub not_eof :
    (is_eof : Bool) (k eof current : ℕ)
    → (is_eof ≡ true → eof ≡ k)
    → k < 2 ^ 31
    → current ≤ k
    → (is_eof && slt eof current) ≡ false
not_eof true k eof current h small going =
    slt_of_le eof current (omega (arith, h refl)) (omega (arith, h refl))
not_eof false k eof current h small going = refl

module _ (payload : ℕ → List ℕ) (last : ℕ) (room : last + 1 < 2 ^ 31) where
  -- The same buffer in another state.
  pub IsFaithful-state :
      {state state' : RecvState} {b : CircularBuffer} {out_file : List ℕ}
      → IsFaithful payload last state b out_file
      → ((n : ℕ) → Waits state b.current n → n ≤ b.highest → Waits state' b.current n)
      → (state' ≡ finished → b.current ≡ last + 1)
      → IsFaithful payload last state' b out_file
  IsFaithful-state v moves ends = record {
    shaped = v.shaped;
    progress = v.progress;
    high = v.high;
    file = v.file;
    held = λ i x at_i valid.
        let old = v.held i x at_i valid in
        record {
          waits = moves x.sequence_num old.waits old.bounded;
          bounded = old.bounded;
          near = old.near;
          placed = old.placed;
          content = old.content;
          fits = old.fits;
        };
    complete = ends;
  }

  -- The current packet is written, and nothing that waits is behind the new number.
  pub IsFaithful-write :
      {state state' : RecvState} {b : CircularBuffer} {out_file packet : List ℕ} {k : ℕ} (high : ℕ)
      → IsFaithful payload last state b out_file
      → packet ≡ payload k
      → k ≤ last
      → k ≡ b.current
      → high ≤ last
      → (state' ≢ finished)
      → ((n : ℕ)
          → Waits state b.current n
          → n ≤ b.highest
          → Waits state' (b.current + 1) n × (n ≤ high))
      → IsFaithful payload last state'
          (record b { current = incr b.current; highest = high })
          (out_file ++ packet)
  IsFaithful-write {b = b} high v p in_file same h ongoing moves =
      let next : incr b.current ≡ suc b.current = omega arith in
      record {
        shaped = record {
          nonempty = v.shaped.nonempty;
          small = v.shaped.small;
          count = v.shaped.count;
          blocks = v.shaped.blocks;
        };
        progress = omega arith;
        high = h;
        file = ap₂ ◌++◌ v.file (p ∙ ap payload same) ∙ ap (written payload) (sym next);
        held = λ i x at_i valid.
            let old = v.held i x at_i valid in
            let moved = moves x.sequence_num old.waits old.bounded in
            record {
              waits = rw (next, ← add-one) moved.0;
              bounded = moved.1;
              near = omega arith;
              placed = old.placed;
              content = old.content;
              fits = old.fits;
            };
        complete = λ e. absurd (ongoing e);
      }

  -- A later packet is stored, and the highest number becomes its own.
  IsFaithful-stored :
      {state : RecvState} {b b' : CircularBuffer} {out_file packet : List ℕ} {k : ℕ}
      → IsFaithful payload last state b out_file
      → IsStored b k packet b'
      → packet ≡ payload k
      → k ≤ last
      → b.current < k
      → k < b.current + b.size
      → ((n : ℕ) → Waits state b.current n → n ≤ b.highest → (b.current < n) × (n ≤ k))
      → IsFaithful payload last buffering (record b' { highest = k }) out_file
  IsFaithful-stored {b = b} {b' = b'} {k = k} v s p in_file later near moves = record {
    shaped = record {
      nonempty = s.shaped.nonempty;
      small = s.shaped.small;
      count = s.shaped.count;
      blocks = s.shaped.blocks;
    };
    progress = omega arith;
    high = in_file;
    file = v.file ∙ ap (written payload) (sym s.counters.0);
    held = λ i x at_i valid. elim (ℕ_discrete i (k % b.size)) [
      | yes same ↦
          let here : get_elem? b'.entries i ≡ some s.entry = rw same s.found in
          let one : s.entry ≡ x = cc in
          subst (IsHeld payload last buffering (record b' { highest = k }) i) one (record {
            waits = omega arith;
            bounded = omega arith;
            near = omega arith;
            placed = rw (s.counters.3, s.numbered, same);
            content = s.content ∙ p ∙ ap payload (sym s.numbered);
            fits = s.fits;
          })
      | no other ↦
          let old = v.held i x (sym (s.others i other) ∙ at_i) valid in
          let moved = moves x.sequence_num old.waits old.bounded in
          record {
            waits = omega arith;
            bounded = moved.1;
            near = omega arith;
            placed = rw s.counters.3 old.placed;
            content = old.content;
            fits = old.fits;
          }
    ];
    complete = λ e. cc;
  }

  pub IsFaithful-store :
      {state : RecvState} {b : CircularBuffer} {out_file packet : List ℕ} {k : ℕ}
      → IsFaithful payload last state b out_file
      → packet ≡ payload k
      → k ≤ last
      → b.current < k
      → k < b.current + b.size
      → length (payload k) ≤ b.buffer_size
      → ((n : ℕ) → Waits state b.current n → n ≤ b.highest → (b.current < n) × (n ≤ k))
      → (b' : CircularBuffer) × (buffer_add b k packet ≡ ok b')
        × IsFaithful payload last buffering (record b' { highest = k }) out_file
  IsFaithful-store {b = b} {packet = packet} {k = k} v p in_file later near small moves =
      let (b', stored, s) =
        buffer_add_stores {b = b} k packet v.shaped (omega arith) (rw p small) in
      (b', stored, IsFaithful-stored v s p in_file later near moves)
