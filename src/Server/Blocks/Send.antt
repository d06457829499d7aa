-- ===== src/Server/Blocks/Send.antt =====
-- server.c: reading a block of the file and sending it.
use native.Mathlib.Decide.{ℕ_discrete}
use cpe464_program.Common.{
  List, [], ap, ap₂, arith, drop, drop-drop, false, get_elem?, get_elem?-set_ne, get_elem?-set_self,
  incr, incr-lt, length, length-take, lt_of_get_elem?, mod_window, ne→==, ok, refl, set, set-set,
  some, suc, sym, take, true, zero, ℕ, ◌%◌, ◌*◌, ◌++◌, ◌+◌, ◌<◌, ◌>>=◌, ◌^◌, ◌∙◌, ◌∷◌, ◌≡◌, ◌≤◌,
}
use cpe464_program.Buffer.{BufferEntry, fill}
use cpe464_program.Buffer.Add.{IsShaped-set, buffer_add_lem, length-fill, rem_int_lem, take-fill}
use cpe464_program.Net.{safe_sendto}
use cpe464_program.Packet.{build_packet, flag_data, max_payload_size}
use cpe464_program.Rcopy.Delivery.File.{block_of}
use cpe464_program.Server.{Server, read_file_to_buffer, send_data, send_read}
use cpe464_program.Server.Blocks.{IsServing, entry_payload_lem}

module _ (chunk_size : ℕ) (file : List ℕ) (small : chunk_size ≤ max_payload_size) where
  reads_block :
      (s : Server)
      → IsServing chunk_size file s
      → take s.window.buffer_size s.export_file ≡ block_of chunk_size file s.window.current
  reads_block s v = ap₂ take v.chunk v.rest

  -- What `read_file_to_buffer` does before the end of the file.
  read_block :
      (s : Server)
      → IsServing chunk_size file s
      → s.window.current < 2 ^ 31
      → 0 < length (block_of chunk_size file s.window.current)
      → (e : BufferEntry) × (get_elem? s.window.entries (s.window.current % s.window.size) ≡ some e)
        × (read_file_to_buffer s
            ≡ ok (
              some (length (block_of chunk_size file s.window.current)),
              record s {
                window = record s.window {
                  entries = set s.window.entries (s.window.current % s.window.size) (
                      fill s.window.buffer_size s.window.current
                        (block_of chunk_size file s.window.current)
                        e);
                };
                export_file = drop s.window.buffer_size s.export_file;
              },
            ))
  unfolding read_file_to_buffer
  read_block s v c more =
      let index = s.window.current % s.window.size in
      let here = block_of chunk_size file s.window.current in
      let (e, p, q) = buffer_add_lem s.window.current here v.shaped c (
        omega
          (arith, length-take chunk_size (drop (s.window.current * chunk_size) file), v.chunk)) in
      let stored = fill s.window.buffer_size s.window.current here e in
      (
        e,
        p,
        rw (
          rem_int_lem s.window.current s.window.size c v.shaped.nonempty v.shaped.small,
          reads_block s v,
          ne→== (length here) 0 (λ z. omega arith),
          q,
          get_elem?-set_self s.window.entries index stored
              (lt_of_get_elem? s.window.entries index e p),
          set-set s.window.entries index stored stored,
        ),
      )

  -- The child after it has sent the next block, with the entry `stored` in the window.
  abbrev next_server : BufferEntry → Server → Server
  next_server stored s = record {
    net = record s.net {
      sent =
          s.net.sent
          ++ (build_packet s.window.current flag_data (block_of chunk_size file s.window.current)
              ∷ []);
    };
    window = record s.window {
      entries = set s.window.entries (s.window.current % s.window.size) stored;
      current = incr s.window.current;
    };
    export_file = drop s.window.buffer_size s.export_file;
  }

  next_server-IsServing :
      (s : Server) (e : BufferEntry)
      → IsServing chunk_size file s
      → s.window.current + 1 < 2 ^ 31
      → get_elem? s.window.entries (s.window.current % s.window.size) ≡ some e
      → IsServing chunk_size file (
          next_server
            (fill s.window.buffer_size s.window.current
              (block_of chunk_size file s.window.current)
              e)
            s)
  next_server-IsServing s e v c p =
      let w = s.window in
      let index = w.current % w.size in
      let here = block_of chunk_size file w.current in
      let stored = fill w.buffer_size w.current here e in
      let full = v.shaped.blocks index e p in
      let fits : length here ≤ length e.bytes =
        omega (arith, length-take chunk_size (drop (w.current * chunk_size) file), v.chunk) in
      let shape =
        IsShaped-set index stored v.shaped (length-fill w.buffer_size w.current here e ∙ full) in
      let up : incr w.current ≡ w.current + 1 = omega (arith, incr-lt w.current) in
      let forth : w.current * chunk_size + chunk_size ≡ incr w.current * chunk_size =
        rw up (omega arith) in
      record {
        shaped = record {
          nonempty = shape.nonempty;
          small = shape.small;
          count = shape.count;
          blocks = shape.blocks;
        };
        chunk = v.chunk;
        rest =
            rw (v.chunk, v.rest)
              (drop-drop (w.current * chunk_size) chunk_size file ∙ ap (λ n. drop n file) forth);
        stored = λ k low near. elim (ℕ_discrete k w.current) [
          | yes same ↦ (
            stored,
            ap (λ n. get_elem? (set w.entries index stored) (n % w.size)) same
                ∙ get_elem?-set_self w.entries index stored (lt_of_get_elem? w.entries index e p),
            take-fill w.buffer_size w.current here e fits
                ∙ ap (block_of chunk_size file) (sym same),
            omega (arith, fits, length-fill w.buffer_size w.current here e),
          )
          | no other ↦
              (let (x, found, content, inside) =
                  v.stored k (omega (arith, up)) (omega (arith, up)) in
                (
                  x,
                  get_elem?-set_ne w.entries index (k % w.size) stored (λ i. other (
                        sym (
                          mod_window w.size k w.current v.shaped.nonempty (omega (arith, up))
                            (omega (arith, up)) i)))
                      ∙ found,
                  content,
                  inside,
                ))
        ];
      }

  -- While the window invariant of the server holds, the current number is far from overflow and the
  -- file is not at its end, read_file_to_buffer and send_data together send exactly the next block
  -- of the file as a DATA packet under the next number, advance `current` by one, leave the other
  -- counters, and keep the invariant.
  pub send_next :
      (s : Server)
      → IsServing chunk_size file s
      → s.window.current + 1 < 2 ^ 31
      → 0 < length (block_of chunk_size file s.window.current)
      → (t : Server) × ((read_file_to_buffer >>= send_read) s ≡ ok (false, t))
        × IsServing chunk_size file t
        × (t.window.current ≡ s.window.current + 1)
        × ((t.window.lowest ≡ s.window.lowest)
            × (t.window.highest ≡ s.window.highest)
            × (t.window.size ≡ s.window.size)
            × (t.net.answers ≡ s.net.answers))
        × (t.net.sent
            ≡ s.net.sent
              ++ (build_packet s.window.current flag_data
                    (block_of chunk_size file s.window.current)
                  ∷ []))
  unfolding send_data safe_sendto
  send_next s v c more =
      let w = s.window in
      let index = w.current % w.size in
      let here = block_of chunk_size file w.current in
      let (e, p, reads) = read_block s v (omega arith) more in
      let stored = fill w.buffer_size w.current here e in
      let short : length here ≤ chunk_size =
        omega (arith, length-take chunk_size (drop (w.current * chunk_size) file)) in
      let fits : length here ≤ length e.bytes = omega (arith, v.shaped.blocks index e p, v.chunk) in
      let kept : length here ≤ length stored.bytes =
        omega (arith, length-fill w.buffer_size w.current here e) in
      (
        next_server stored s,
        rw (
          reads,
          rem_int_lem w.current w.size (omega arith) v.shaped.nonempty v.shaped.small,
          get_elem?-set_self w.entries index stored (lt_of_get_elem? w.entries index e p),
          entry_payload_lem stored (length here) kept (omega arith),
          take-fill w.buffer_size w.current here e fits,
        ),
        next_server-IsServing s e v c p,
        omega (arith, incr-lt w.current),
        (refl, refl, refl, refl),
        refl,
      )

  end_of_file : (n : ℕ) (xs : List ℕ) → length (take n xs) ≡ 0 → (take n xs ≡ []) × (drop n xs ≡ xs)
  end_of_file zero xs e = (refl, refl)
  end_of_file (suc n) [] e = (refl, refl)
  end_of_file (suc n) (x ∷ xs) e = absurd (omega arith)

  -- While the window invariant of the server holds and no block of the file is left,
  -- read_file_to_buffer reports the end of the file, nothing is sent, and the state stays.
  pub send_at_end :
      (s : Server)
      → IsServing chunk_size file s
      → s.window.current < 2 ^ 31
      → length (block_of chunk_size file s.window.current) ≡ 0
      → (read_file_to_buffer >>= send_read) s ≡ ok (true, s)
  unfolding read_file_to_buffer
  send_at_end s v c over =
      let (nothing, stays) =
        end_of_file s.window.buffer_size s.export_file (ap length (reads_block s v) ∙ over) in
      rw
        (
          rem_int_lem s.window.current s.window.size c v.shaped.nonempty v.shaped.small,
          nothing,
          stays,
        )
        refl
