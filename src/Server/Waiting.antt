-- ===== src/Server/Waiting.antt =====
-- server.c when it waits: for an acknowledgement while the window is full, and for the one of the EOF.
use cpe464_program.Common.{
  List, [], ap, append-nil, append_assoc, ap₂, arith, eq→==, false, le→leb, le→ltb, lt→leb, lt→ltb,
  ok, refl, replicate, slt, slt_of_le, suc, sym, true, zero, ℕ, ◌++◌, ◌+◌, ◌<◌, ◌^◌, ◌∙◌, ◌∷◌, ◌≡◌,
  ◌≤◌,
}
use cpe464_program.Net.{Net, safe_sendto}
use cpe464_program.Net.Laws.{poll_timeout}
use cpe464_program.Packet.{build_packet, flag_eof, flag_resent_timeout, max_payload_size}
use cpe464_program.Poll.{Answer, answered}
use cpe464_program.Rcopy.Delivery.File.{block_of}
use cpe464_program.Server.{
  Server, done, eof_loop, handle_send_data, handle_wait_eof_ack, send_eof, send_loop, wait_loop,
}
use cpe464_program.Server.Blocks.{IsServing, IsServing-net}
use cpe464_program.Server.Blocks.Resend.{resend_packet_lem}

-- The script begins with `n` time-outs.
abbrev pub timeouts : ℕ → List Answer → List Answer
timeouts zero rest = rest
timeouts (suc n) rest = answered 0 [] ∷ timeouts n rest

-- The child after it has heard nothing for a while and has sent `packets`.
abbrev pub unheard : List Answer → List (List ℕ) → Server → Server
unheard rest packets s = record s {
  net = record s.net { answers = rest; sent = s.net.sent ++ packets };
}

eof_loop-timeouts :
    (left attempt more : ℕ) (stack : ℕ → ℕ) (rest : List Answer) (s : Server)
    → attempt + left ≡ 10
    → s.net.answers ≡ timeouts left rest
    → eof_loop (left + suc more) stack attempt s
      ≡ ok (done, unheard rest (replicate left (build_packet s.window.current flag_eof [])) s)
unfolding eof_loop send_eof safe_sendto
eof_loop-timeouts zero attempt more stack rest s ten e =
    let count : 0 + suc more ≡ suc more = omega arith in
    rw (count, le→ltb attempt 10 (omega arith))
      (ap₂ (λ a b. ok (done, record s { net = record s.net { answers = a; sent = b } })) e
        (sym (append-nil s.net.sent)))
eof_loop-timeouts (suc left) attempt more stack rest s ten e =
    let count : suc left + suc more ≡ suc (left + suc more) = omega arith in
    let eof : List ℕ = build_packet s.window.current flag_eof [] in
    let asked : Net = record s.net { sent = s.net.sent ++ (eof ∷ []) } in
    let silent : Server = record s { net = record asked { answers = timeouts left rest } } in
    rw (count, lt→ltb attempt 10 (omega arith), poll_timeout asked [] (timeouts left rest) e)
      (eof_loop-timeouts left (attempt + 1) more stack rest silent (omega arith) refl
        ∙ ap (λ l. ok (done, record s { net = record s.net { answers = rest; sent = l } }))
            (append_assoc s.net.sent (eof ∷ []) (replicate left eof)))

-- If ten polls in a row time out, handle_wait_EOF_ack has sent the EOF packet ten times, under the
-- current number, and returns DONE.
pub handle_wait_eof_ack_times_out :
    (more : ℕ) (stack : ℕ → ℕ) (rest : List Answer) (s : Server)
    → s.net.answers ≡ timeouts 10 rest
    → handle_wait_eof_ack (10 + suc more) stack s
      ≡ ok (done, unheard rest (replicate 10 (build_packet s.window.current flag_eof [])) s)
unfolding handle_wait_eof_ack
handle_wait_eof_ack_times_out more stack rest s e = eof_loop-timeouts 10 0 more stack rest s refl e

module _ (chunk_size : ℕ) (file : List ℕ) (small : chunk_size ≤ max_payload_size) where
  -- The packet that is resent at a time-out: the oldest one of the window.
  abbrev pub oldest : Server → List ℕ
  oldest s =
      build_packet s.window.lowest flag_resent_timeout (block_of chunk_size file s.window.lowest)

  wait_loop-timeouts :
      (left attempts more : ℕ) (stack : ℕ → ℕ) (socket_num : ℕ) (rest : List Answer) (s : Server)
      → attempts + suc left ≡ 10
      → s.net.answers ≡ timeouts (suc left) rest
      → IsServing chunk_size file s
      → s.window.lowest < s.window.current
      → s.window.current ≤ s.window.lowest + s.window.size
      → s.window.current ≡ s.window.highest
      → wait_loop (left + suc more) stack socket_num attempts s
        ≡ ok (true, unheard rest (replicate left (oldest s)) s)
  unfolding wait_loop
  wait_loop-timeouts zero attempts more stack socket_num rest s ten e v low near full =
      let count : 0 + suc more ≡ suc more = omega arith in
      rw
        (
          count,
          eq→== s.window.current s.window.highest full,
          poll_timeout s.net [] rest e,
          le→leb 10 (attempts + 1) (omega arith),
        )
        (ap (λ l. ok (true, record s { net = record s.net { answers = rest; sent = l } }))
          (sym (append-nil s.net.sent)))
  wait_loop-timeouts (suc left) attempts more stack socket_num rest s ten e v low near full =
      let count : suc left + suc more ≡ suc (left + suc more) = omega arith in
      let quiet : Server = record s { net = record s.net { answers = timeouts (suc left) rest } } in
      let resent : Server = record quiet {
        net = record quiet.net { sent = s.net.sent ++ (oldest s ∷ []) };
      } in
      rw
        (
          count,
          eq→== s.window.current s.window.highest full,
          poll_timeout s.net [] (timeouts (suc left) rest) e,
          lt→leb 10 (attempts + 1) (omega arith),
          resend_packet_lem chunk_size file small quiet s.window.lowest flag_resent_timeout
              (IsServing-net chunk_size file s quiet.net v) low near,
        )
        (wait_loop-timeouts left (attempts + 1) more stack socket_num rest resent (omega arith) refl
            (IsServing-net chunk_size file s resent.net v) low near full
          ∙ ap (λ l. ok (true, record s { net = record s.net { answers = rest; sent = l } }))
              (append_assoc s.net.sent (oldest s ∷ []) (replicate left (oldest s))))

  send_loop-closed :
      (fuel : ℕ) (stack : ℕ → ℕ) (socket_num : ℕ) (s : Server)
      → slt s.window.current s.window.highest ≡ false
      → send_loop (suc fuel) stack socket_num s ≡ ok (false, s)
  unfolding send_loop
  send_loop-closed fuel stack socket_num s closed = rw closed

  handle_send_data-done :
      (fuel : ℕ) (stack : ℕ → ℕ) (socket_num : ℕ) (s t : Server)
      → send_loop fuel stack socket_num s ≡ ok (false, s)
      → wait_loop fuel stack socket_num 0 s ≡ ok (true, t)
      → handle_send_data fuel stack socket_num s ≡ ok (done, t)
  unfolding handle_send_data
  handle_send_data-done fuel stack socket_num s t closed gave_up = rw (closed, gave_up)

  -- While the window of the server is full, with the oldest unacknowledged number within it, ten
  -- time-outs in a row make handle_send_data return DONE after it has resent the oldest block of the
  -- window nine times, as it is in the file.
  pub handle_send_data_times_out :
      (more : ℕ) (stack : ℕ → ℕ) (socket_num : ℕ) (rest : List Answer) (s : Server)
      → s.net.answers ≡ timeouts 10 rest
      → IsServing chunk_size file s
      → s.window.lowest < s.window.current
      → s.window.current ≤ s.window.lowest + s.window.size
      → s.window.current ≡ s.window.highest
      → s.window.current < 2 ^ 31
      → handle_send_data (10 + suc more) stack socket_num s
        ≡ ok (done, unheard rest (replicate 9 (oldest s)) s)
  handle_send_data_times_out more stack socket_num rest s e v low near full c =
      let first : 10 + suc more ≡ suc (10 + more) = omega arith in
      let second : 10 + suc more ≡ 9 + suc (suc more) = omega arith in
      let closed = slt_of_le s.window.current s.window.highest c (omega arith) in
      handle_send_data-done (10 + suc more) stack socket_num s
        (unheard rest (replicate 9 (oldest s)) s)
        (ap (λ n. send_loop n stack socket_num s) first
          ∙ send_loop-closed (10 + more) stack socket_num s closed)
        (ap (λ n. wait_loop n stack socket_num 0 s) second
          ∙ wait_loop-timeouts 9 0 (suc more) stack socket_num rest s refl e v low near full)
