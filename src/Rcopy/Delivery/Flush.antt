-- ===== src/Rcopy/Delivery/Flush.antt =====
-- `handle_flush` of rcopy.c.
use native.Mathlib.Decide.{ℕ_discrete}
use cpe464_program.Common.{
  Bool-cases, Ensures, Ensures-and_then, List, Order-cases, [], ap, arith, false, get_elem?,
  get_elem?-set_ne, get_elem?-set_self, get_elem?_of_lt, incr, inl, inr, length, le→leb,
  lt_of_get_elem?, mod_window, ok, refl, set, slt_of_le, slt_of_lt, some, suc, sym, take, true,
  zero, ℕ, ◌%◌, ◌++◌, ◌+◌, ◌<◌, ◌^◌, ◌∙◌, ◌∷◌, ◌≡◌, ◌≤◌,
}
use cpe464_program.Buffer.{BufferEntry, CircularBuffer}
use cpe464_program.Buffer.Add.{IsShaped, IsShaped-set, rem_int_lem}
use cpe464_program.Net.{safe_sendto}
use cpe464_program.Packet.{rr_packet}
use cpe464_program.Rcopy.{
  Rcopy, after_flush, buffering, current_entry, flush, flush_entry, flush_loop, handle_flush,
  inorder,
}
use cpe464_program.Rcopy.Delivery.{Holds, IsFaithful}
use cpe464_program.Rcopy.Delivery.Entries.{IsFaithful-state, IsFaithful-write}

pub current_entry_lem :
    {b : CircularBuffer}
    → IsShaped b
    → b.current < 2 ^ 31
    → (e : BufferEntry) × (get_elem? b.entries (b.current % b.size) ≡ some e)
      × (current_entry b ≡ some (b.current % b.size, e))
current_entry_lem {b} v h =
    let in_range : b.current % b.size < length b.entries = omega arith in
    let (e, p) = get_elem?_of_lt b.entries (b.current % b.size) in_range in
    (e, p, ground (arith, rem_int_lem b.current b.size h v.nonempty v.small))

-- A valid entry after one was cleared was there before.
valid_of_cleared :
    (entries : List BufferEntry) (index i : ℕ) (e x : BufferEntry)
    → get_elem? entries index ≡ some e
    → get_elem? (set entries index (record e { valid_flag = false })) i ≡ some x
    → x.valid_flag ≡ true
    → get_elem? entries i ≡ some x
valid_of_cleared entries index i e x p at_i valid = elim (ℕ_discrete index i) [
  | yes same ↦
      let cleared : BufferEntry = record e { valid_flag = false } in
      let here : get_elem? (set entries index cleared) i ≡ some cleared =
        rw (← same)
          (get_elem?-set_self entries index cleared (lt_of_get_elem? entries index e p)) in
      let one : cleared ≡ x = cc in
      absurd (ground (arith, ap (λ (y : BufferEntry). y.valid_flag) one))
  | no other ↦ sym (get_elem?-set_ne entries index i (record e { valid_flag = false }) other) ∙ at_i
]

module _ (payload : ℕ → List ℕ) (last : ℕ) (room : last + 1 < 2 ^ 31) where
  -- With the current entry not valid, only later packets wait.
  IsFaithful-settle :
      {b : CircularBuffer} {out_file : List ℕ} (e : BufferEntry)
      → IsFaithful payload last flush b out_file
      → get_elem? b.entries (b.current % b.size) ≡ some e
      → e.valid_flag ≡ false
      → IsFaithful payload last buffering b out_file
  IsFaithful-settle {b = b} e v p empty = record {
    shaped = v.shaped;
    progress = v.progress;
    high = v.high;
    file = v.file;
    held = λ i x at_i valid.
        let old = v.held i x at_i valid in
        record {
          waits = elim (Order-cases b.current x.sequence_num) [
            | inl later ↦ later
            | inr (inl same) ↦
                let here : get_elem? b.entries i ≡ some e = rw (← old.placed, ← same) p in
                let one : e ≡ x = cc in
                absurd (ground (arith, ap (λ (y : BufferEntry). y.valid_flag) one))
            | inr (inr earlier) ↦ absurd (omega (arith, old.waits))
          ];
          bounded = old.bounded;
          near = old.near;
          placed = old.placed;
          content = old.content;
          fits = old.fits;
        };
    complete = λ e. cc;
  }

  IsFaithful-clear :
      {b : CircularBuffer} {out_file : List ℕ} (e : BufferEntry)
      → IsFaithful payload last flush b out_file
      → get_elem? b.entries (b.current % b.size) ≡ some e
      → IsFaithful payload last flush
          (record b {
            entries = set b.entries (b.current % b.size) (record e { valid_flag = false });
          })
          out_file
  IsFaithful-clear {b = b} e v p = record {
    shaped =
        IsShaped-set (b.current % b.size) (record e { valid_flag = false }) v.shaped
          (v.shaped.blocks (b.current % b.size) e p);
    progress = v.progress;
    high = v.high;
    file = v.file;
    held = λ i x at_i valid.
        let old =
          v.held i x (valid_of_cleared b.entries (b.current % b.size) i e x p at_i valid) valid in
        record {
          waits = old.waits;
          bounded = old.bounded;
          near = old.near;
          placed = old.placed;
          content = old.content;
          fits = old.fits;
        };
    complete = λ e. cc;
  }

  abbrev IsFlushed : Unit {0} × Rcopy → Type 0
  IsFlushed r = IsFaithful payload last buffering r.1.buffer r.1.out_file

  abbrev index_of : Rcopy → ℕ
  index_of s = s.buffer.current % s.buffer.size

  abbrev after_entry : BufferEntry → Rcopy → Rcopy
  after_entry e s = record s {
    net = record s.net { sent = s.net.sent ++ (rr_packet (incr s.buffer.current) ∷ []) };
    out_file = s.out_file ++ take e.data_len e.bytes;
    buffer = record s.buffer {
      entries = set s.buffer.entries (index_of s) (record e { valid_flag = false });
      current = incr s.buffer.current;
    };
  }

  -- One round at a valid entry writes the current packet.
  flush_entry_lem :
      (e : BufferEntry) (s : Rcopy)
      → IsFaithful payload last flush s.buffer s.out_file
      → get_elem? s.buffer.entries (index_of s) ≡ some e
      → e.valid_flag ≡ true
      → (t : Rcopy) × (flush_entry (index_of s) e s ≡ ok (tt, t))
        × IsFaithful payload last flush t.buffer t.out_file
        × (t.buffer.current ≡ s.buffer.current + 1)
        × (t.buffer.entries ≡ set s.buffer.entries (index_of s) (record e { valid_flag = false }))
  unfolding flush_entry safe_sendto
  flush_entry_lem e s v p valid =
      let own = v.held (index_of s) e p valid in
      let number : e.sequence_num ≡ s.buffer.current =
        mod_window s.buffer.size s.buffer.current e.sequence_num v.shaped.nonempty own.waits
          own.near own.placed in
      let cleared = record e { valid_flag = false } in
      let settled =
        IsFaithful-settle cleared (IsFaithful-clear e v p)
          (get_elem?-set_self s.buffer.entries (index_of s) cleared
            (lt_of_get_elem? s.buffer.entries (index_of s) e p))
          refl in
      (
        after_entry e s,
        rw (le→leb e.data_len (length e.bytes) own.fits),
        IsFaithful-write payload last room {state = buffering} {k = s.buffer.current}
            s.buffer.highest settled (own.content ∙ ap payload number) (omega (arith, own.bounded))
            refl v.high (λ x. cc) (λ n w h. (omega arith, h)),
        omega arith,
        refl,
      )

  -- While a valid entry stands at the current number, its packet is written; every number below `top`
  -- is written at most once, so the fuel is enough.
  flush_loop_lem :
      (fuel top : ℕ) (s : Rcopy)
      → IsFaithful payload last flush s.buffer s.out_file
      → ((i : ℕ) (e : BufferEntry)
          → get_elem? s.buffer.entries i ≡ some e
          → e.valid_flag ≡ true
          → e.sequence_num < top)
      → s.buffer.current ≤ top
      → top < s.buffer.current + fuel
      → Ensures IsFlushed (flush_loop fuel s)
  unfolding flush_loop
  flush_loop_lem zero top s v below low high = absurd (omega arith)
  flush_loop_lem (suc fuel) top s v below low high =
      let (e, p, q) = current_entry_lem v.shaped (omega arith) in
      elim (Bool-cases e.valid_flag) [
        | inr empty ↦ rw (q, empty) (IsFaithful-settle e v p empty)
        | inl valid ↦
            let (t, r, w, moved, cleared) = flush_entry_lem e s v p valid in
            let own = v.held (index_of s) e p valid in
            rw (q, valid, r)
              (flush_loop_lem fuel top t w
                (λ i x at_i ok_x.
                  below i x
                    (valid_of_cleared s.buffer.entries (index_of s) i e x p (rw cleared at at_i)
                      ok_x)
                    ok_x)
                (omega (arith, below (index_of s) e p valid, own.waits)) (omega arith))
      ]

  -- After the loop nothing waits at the current number, so the client is in order exactly if nothing
  -- later waits either.
  after_flush_lem :
      (s : Rcopy)
      → IsFaithful payload last buffering s.buffer s.out_file
      → Ensures (Holds payload last) (after_flush s)
  unfolding after_flush safe_sendto
  after_flush_lem s v =
      let (e, p, q) = current_entry_lem v.shaped (omega arith) in
      elim (Order-cases s.buffer.current s.buffer.highest) [
        | inl below ↦ elim (Bool-cases e.valid_flag) [
          | inl valid ↦
              let own = v.held (index_of s) e p valid in
              absurd (
                omega (
                  arith,
                  own.waits,
                  mod_window s.buffer.size s.buffer.current e.sequence_num v.shaped.nonempty
                      (omega (arith, own.waits)) own.near own.placed,
                ))
          | inr empty ↦
              rw (slt_of_lt s.buffer.current s.buffer.highest (omega arith) below, q, empty) v
        ]
        | inr reached ↦
            rw (slt_of_le s.buffer.current s.buffer.highest (omega arith) (omega arith)) (
              IsFaithful-state payload last room {state' = inorder} v (λ n w h. omega arith)
                (λ x. cc))
      ]

  -- If the invariant holds at a flush, handle_flush ends within its rounds, does nothing undefined,
  -- and keeps the invariant for the state that it returns.
  pub handle_flush_lem :
      (s : Rcopy)
      → IsFaithful payload last flush s.buffer s.out_file
      → Ensures (Holds payload last) (handle_flush s)
  unfolding handle_flush
  handle_flush_lem s v =
      Ensures-and_then IsFlushed (Holds payload last) (flush_loop (suc (length s.buffer.entries)) s)
        (λ r. after_flush r.1)
        (flush_loop_lem (suc (length s.buffer.entries)) (s.buffer.current + s.buffer.size) s v
          (λ i e p q. (v.held i e p q).near) (omega arith) (omega arith))
        (λ r w. after_flush_lem r.1 w)
