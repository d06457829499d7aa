-- ===== src/Rcopy/Reorder.antt =====
-- rcopy.c: packets that arrive out of order while the client is buffering, and what is left of them.
mod Tests
use cpe464_program.Common.{
  List, [], ap, arith, drop, eq→==, false, get_elem?, get_elem?-set_ne, get_elem?-set_self, incr,
  incr-lt, length, le→leb, lt_of_get_elem?, lt→ltb, mod_window, ne→==, ok, refl, set, some, suc,
  sym, take, true, ℕ, ◌%◌, ◌++◌, ◌+◌, ◌<◌, ◌^◌, ◌∙◌, ◌∷◌, ◌≡◌, ◌≢◌, ◌≤◌,
}
use cpe464_program.Buffer.{BufferEntry, CircularBuffer, fill}
use cpe464_program.Buffer.Add.{IsShaped, buffer_add_lem, rem_int_lem, take-fill}
use cpe464_program.Checksum.{in_cksum}
use cpe464_program.Net.{safe_sendto}
use cpe464_program.Packet.{byte_at, flag_eof, header_size, load_net32, rr_packet}
use cpe464_program.Rcopy.{
  Rcopy, buffering, current_entry, flush_entry, flush_loop, next_buffering, receive_buffering,
  zeroed,
}

-- `t` is `s` after packet `k` with this payload was buffered: it stands at its index, and `highest` is its
-- number.
pub record IsBuffered (s : Rcopy) (k : ℕ) (payload : List ℕ) (t : Rcopy) : Type 0 where
  pub entry : BufferEntry
  pub found : get_elem? t.buffer.entries (k % s.buffer.size) ≡ some entry
  pub valid : entry.valid_flag ≡ true
  pub numbered : entry.sequence_num ≡ k
  pub content : take entry.data_len entry.bytes ≡ payload
  pub highest : t.buffer.highest ≡ k
  pub current : t.buffer.current ≡ s.buffer.current
  pub out_file : t.out_file ≡ s.out_file
  pub others :
      (i : ℕ) → i ≢ k % s.buffer.size → get_elem? t.buffer.entries i ≡ get_elem? s.buffer.entries i

-- In a well-shaped buffer, while the client is buffering, let the newest buffered packet, whose
-- number is `highest`, less than a window past the current number, stand at its index, and let a
-- packet verify, be no EOF, fit a block and lie between the current number and that newest one. Then
-- handle_buffer stores it: a valid entry at its index has its number and its payload, the entries at
-- other indices stay, the newest packet among them, and nothing is written; but `highest` is now its
-- number, below that of the newest packet that the buffer still holds.
pub highest_falls_back :
    (packet : List ℕ) (k : ℕ) (s : Rcopy) (newest : BufferEntry)
    → IsShaped s.buffer
    → get_elem? s.buffer.entries (s.buffer.highest % s.buffer.size) ≡ some newest
    → newest.sequence_num ≡ s.buffer.highest
    → s.buffer.highest < s.buffer.current + s.buffer.size
    → in_cksum packet ≡ 0
    → byte_at zeroed packet 6 ≢ flag_eof
    → load_net32 zeroed packet 0 ≡ k
    → header_size ≤ length packet
    → length (drop header_size packet) ≤ s.buffer.buffer_size
    → k < 2 ^ 31
    → s.buffer.current < k
    → k < s.buffer.highest
    → (t : Rcopy) × (receive_buffering packet s ≡ ok (buffering, t))
      × IsBuffered s k (drop header_size packet) t
      × (get_elem? t.buffer.entries (newest.sequence_num % s.buffer.size) ≡ some newest)
      × (t.buffer.highest < newest.sequence_num)
unfolding receive_buffering next_buffering
highest_falls_back packet k s newest v holds top near good plain number long fits room later older =
    let (e, p, stores) = buffer_add_lem k (drop header_size packet) v room fits in
    let size = s.buffer.size in
    let index = k % size in
    let payload = drop header_size packet in
    let stored = fill s.buffer.buffer_size k payload e in
    let apart : index ≢ newest.sequence_num % size = λ same. omega (
      arith,
      top,
      mod_window size k newest.sequence_num v.nonempty (omega (arith, top)) (omega (arith, top))
          (sym same),
    ) in
    (
      record s {
        buffer = record s.buffer { entries = set s.buffer.entries index stored; highest = k };
      },
      rw (
        eq→== (in_cksum packet) 0 good,
        ne→== (byte_at zeroed packet 6) flag_eof plain,
        number,
        ne→== k s.buffer.current (λ z. omega arith),
        lt→ltb s.buffer.current k later,
        le→leb header_size (length packet) long,
        stores,
      ),
      record {
        entry = stored;
        found =
            get_elem?-set_self s.buffer.entries index stored
              (lt_of_get_elem? s.buffer.entries index e p);
        valid = refl;
        numbered = refl;
        content =
            take-fill s.buffer.buffer_size k payload e (omega (arith, v.blocks index e p, fits));
        highest = refl;
        current = refl;
        out_file = refl;
        others = λ i ne. get_elem?-set_ne s.buffer.entries index i stored (λ z. ne (sym z));
      },
      get_elem?-set_ne s.buffer.entries index (newest.sequence_num % size) stored apart
          ∙ ap (λ n. get_elem? s.buffer.entries (n % size)) top
          ∙ holds,
      omega (arith, top),
    )

current_entry_of :
    (b : CircularBuffer) (e : BufferEntry)
    → b.current < 2 ^ 31
    → 0 < b.size
    → b.size < 2 ^ 31
    → get_elem? b.entries (b.current % b.size) ≡ some e
    → current_entry b ≡ some (b.current % b.size, e)
current_entry_of b e room pos small p =
    ground (arith, rem_int_lem b.current b.size room pos small, p)

flush_loop-valid :
    (fuel index : ℕ) (e : BufferEntry) (s t : Rcopy)
    → current_entry s.buffer ≡ some (index, e)
    → e.valid_flag ≡ true
    → flush_entry index e s ≡ ok (tt, t)
    → flush_loop (suc fuel) s ≡ flush_loop fuel t
unfolding flush_loop flush_entry
flush_loop-valid fuel index e s t c valid r = rw (c, valid, r)

flush_loop-empty :
    (fuel index : ℕ) (e : BufferEntry) (s : Rcopy)
    → current_entry s.buffer ≡ some (index, e)
    → e.valid_flag ≡ false
    → flush_loop (suc fuel) s ≡ ok (tt, s)
unfolding flush_loop
flush_loop-empty fuel index e s c empty = rw (c, empty)

-- The state after one round of a flush.
abbrev flushed : Rcopy → BufferEntry → Rcopy
flushed s e = record s {
  net = record s.net { sent = s.net.sent ++ (rr_packet (incr s.buffer.current) ∷ []) };
  out_file = s.out_file ++ take e.data_len e.bytes;
  buffer = record s.buffer {
    entries =
        set s.buffer.entries (s.buffer.current % s.buffer.size) (record e { valid_flag = false });
    current = incr s.buffer.current;
  };
}

flush_entry-flushed :
    (s : Rcopy) (e : BufferEntry)
    → e.data_len ≤ length e.bytes
    → flush_entry (s.buffer.current % s.buffer.size) e s ≡ ok (tt, flushed s e)
unfolding flush_entry safe_sendto
flush_entry-flushed s e fits = rw (le→leb e.data_len (length e.bytes) fits)

-- A flush writes whatever valid entry stands at the index of the current number: if that entry holds
-- packet `j`, whichever number `j` is, and the next entry is not valid, then the loop of
-- handle_flush, in a well-shaped buffer of at least two entries, writes the payload of packet `j`,
-- advances the current number by one, and ends.
pub flush_writes_leftover :
    (payload : ℕ → List ℕ) (j fuel : ℕ) (s : Rcopy) (e next : BufferEntry)
    → IsShaped s.buffer
    → s.buffer.current + 1 < 2 ^ 31
    → 1 < s.buffer.size
    → get_elem? s.buffer.entries (s.buffer.current % s.buffer.size) ≡ some e
    → e.valid_flag ≡ true
    → e.data_len ≤ length e.bytes
    → e.sequence_num ≡ j
    → take e.data_len e.bytes ≡ payload j
    → get_elem? s.buffer.entries ((s.buffer.current + 1) % s.buffer.size) ≡ some next
    → next.valid_flag ≡ false
    → (t : Rcopy) × (flush_loop (suc (suc fuel)) s ≡ ok (tt, t))
      × (t.out_file ≡ s.out_file ++ payload j)
      × (t.buffer.current ≡ s.buffer.current + 1)
flush_writes_leftover payload j fuel s e next v room wide p valid fits number content q empty =
    let b = s.buffer in
    let index = b.current % b.size in
    let cleared = record e { valid_flag = false } in
    let up : incr b.current ≡ b.current + 1 = incr-lt b.current (omega arith) in
    let apart : index ≢ (b.current + 1) % b.size = λ same. omega (
      arith,
      mod_window b.size b.current (b.current + 1) v.nonempty (omega arith) (omega arith) (sym same),
    ) in
    let next_found : get_elem? (flushed s e).buffer.entries (incr b.current % b.size) ≡ some next =
      rw up (get_elem?-set_ne b.entries index ((b.current + 1) % b.size) cleared apart ∙ q) in
    (
      flushed s e,
      flush_loop-valid (suc fuel) index e s (flushed s e)
            (current_entry_of b e (omega arith) v.nonempty v.small p) valid
            (flush_entry-flushed s e fits)
          ∙ flush_loop-empty fuel (incr b.current % b.size) next (flushed s e)
              (current_entry_of (flushed s e).buffer next (omega (arith, up)) v.nonempty v.small
                next_found)
              empty,
      ap (λ l. s.out_file ++ l) content,
      up,
    )
