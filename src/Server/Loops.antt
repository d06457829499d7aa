-- ===== src/Server/Loops.antt =====
-- server.c: the loops of the child, with the invariant of its window.
use native.Mathlib.Decide.{ℕ_discrete}
use cpe464_program.Common.{
  Bool, Bool-cases, List, M, Returns, Returns-and_then, Returns-mono, Returns-trivial,
  and_then_assoc, arith, false, get, if◌then◌else◌, inl, inr, leb, length, ltb, return, slt, subst,
  suc, sym, true, zero, ℕ, ◌+◌, ◌<◌, ◌==◌, ◌>>=◌, ◌>>◌, ◌^◌, ◌≡◌, ◌≤◌,
}
use cpe464_program.Net.{Net, poll, safe_recvfrom, safe_sendto}
use cpe464_program.Packet.{flag_eof, flag_resent_timeout, max_payload_size, max_pdu}
use cpe464_program.Rcopy.Delivery.File.{block_of}
use cpe464_program.Server.{
  Server, ServerState, child_loop, done, drain_loop, eof_loop, filename_ack, handle_send_data,
  handle_wait_eof_ack, is_timeout, on_net, process_packet, process_rr_srej_eof, read_file_to_buffer,
  resend_packet, returned, send_eof, send_file, send_loop, send_read, wait_eof_ack, wait_loop,
}
use cpe464_program.Server.Answers.{process_packet-IsServing, resend_packet-IsServing}
use cpe464_program.Server.Blocks.{IsServing, IsServing-net}
use cpe464_program.Server.Blocks.Send.{send_at_end, send_next}

module _ (chunk_size : ℕ) (file : List ℕ) (small : chunk_size ≤ max_payload_size) where
  -- The window invariant, with the current number below the largest `int`.
  abbrev pub IsSound : Server → Type 0
  IsSound s = IsServing chunk_size file s × (s.window.current < 2 ^ 31)

  -- If the piece returns from a sound state, the state that it leaves is sound.
  abbrev Keeps {ℓ} : {A : Type ℓ} → M Server A → Type 0
  Keeps m = (s : Server) → IsSound s → Returns (λ r. IsSound r.1) (m s)

  Keeps-bind {ℓ κ} :
      {A : Type ℓ} {B : Type κ} (m : M Server A) (f : A → M Server B)
      → Keeps m
      → ((a : A) → Keeps (f a))
      → Keeps (m >>= f)
  Keeps-bind m f km kf s v =
      Returns-and_then (λ r. IsSound r.1) (λ r. IsSound r.1) (m s) (λ r. f r.0 r.1) (km s v)
        (λ r w. kf r.0 r.1 w)

  Keeps-if {ℓ} :
      {A : Type ℓ} (b : Bool) (m m' : M Server A) → Keeps m → Keeps m' → Keeps (if b then m else m')
  Keeps-if true m m' k k' = k
  Keeps-if false m m' k k' = k'

  on_net-Keeps {ℓ} : {A : Type ℓ} (m : M Net A) → Keeps (on_net m)
  on_net-Keeps m s v =
      Returns-and_then (λ r. Unit {0}) (λ r. IsSound r.1) (m s.net) _ (Returns-trivial (m s.net))
        (λ r u. (IsServing-net chunk_size file s r.1 v.0, v.1))

  process_rr_srej_eof-Keeps : (stack : ℕ → ℕ) → Keeps (process_rr_srej_eof stack)
  unfolding process_rr_srej_eof
  process_rr_srej_eof-Keeps stack =
      Keeps-bind (on_net (safe_recvfrom max_pdu)) (process_packet stack)
        (on_net-Keeps (safe_recvfrom max_pdu))
        (λ packet s v.
          Returns-mono
            (λ r. IsServing chunk_size file r.1 × (r.1.window.current ≡ s.window.current))
            (λ r. IsSound r.1) (process_packet stack packet s) (λ r h. (h.0, omega (arith, h.1)))
            (process_packet-IsServing chunk_size file stack packet s v.0))

  resend_packet-Keeps : (k flag : ℕ) → Keeps (resend_packet k flag)
  resend_packet-Keeps k flag s v =
      Returns-mono (λ r. IsServing chunk_size file r.1 × (r.1.window.current ≡ s.window.current))
        (λ r. IsSound r.1) (resend_packet k flag s) (λ r h. (h.0, omega (arith, h.1)))
        (resend_packet-IsServing chunk_size file k flag s v.0)

  drain_loop-Keeps :
      (fuel : ℕ) (stack : ℕ → ℕ) (socket_num : ℕ) → Keeps (drain_loop fuel stack socket_num)
  unfolding drain_loop
  drain_loop-Keeps zero stack socket_num = λ s v. tt
  drain_loop-Keeps (suc fuel) stack socket_num =
      Keeps-bind (on_net poll) _ (on_net-Keeps poll) (λ ready.
        Keeps-if (returned socket_num ready) _ (return tt)
          (Keeps-bind (process_rr_srej_eof stack) _ (process_rr_srej_eof-Keeps stack)
            (λ flag. drain_loop-Keeps fuel stack socket_num))
          (λ s v. v))

  -- A block is read and sent only below the end of the window, so that the next number is no overflow.
  read_and_send :
      (s : Server)
      → IsSound s
      → slt s.window.current s.window.highest ≡ true
      → Returns (λ r. IsSound r.1) ((read_file_to_buffer >>= send_read) s)
  read_and_send s v open_window =
      elim (ℕ_discrete (length (block_of chunk_size file s.window.current)) 0) [
        | yes none_left ↦ rw (send_at_end chunk_size file small s v.0 v.1 none_left) v
        | no more ↦
            (let (t, sends, w, next, kept, sent) =
                send_next chunk_size file small s v.0 (ground (arith, open_window)) (omega arith) in
              rw sends (w, ground (arith, open_window)))
      ]

  after_send-Keeps :
      (fuel : ℕ) (stack : ℕ → ℕ) (socket_num : ℕ) (rest : M Server Bool)
      → Keeps rest
      → (sent_all : Bool)
      → Keeps (if sent_all then return true else (drain_loop fuel stack socket_num >> rest))
  after_send-Keeps fuel stack socket_num rest keeps sent_all =
      Keeps-if sent_all (return true) _ (λ s v. v)
        (Keeps-bind (drain_loop fuel stack socket_num) _ (drain_loop-Keeps fuel stack socket_num)
          (λ u. keeps))

  send_loop-Keeps :
      (fuel : ℕ) (stack : ℕ → ℕ) (socket_num : ℕ) → Keeps (send_loop fuel stack socket_num)
  unfolding send_loop
  send_loop-Keeps zero stack socket_num s v = tt
  send_loop-Keeps (suc fuel) stack socket_num s v =
      let go_on : Bool → M Server Bool = λ sent_all.
        if sent_all
        then return true
        else drain_loop (suc fuel) stack socket_num >> send_loop fuel stack socket_num in
      elim (Bool-cases (slt s.window.current s.window.highest)) [
        | inr closed ↦ rw closed v
        | inl open_window ↦ rw open_window (
            subst (Returns (λ r. IsSound r.1))
              (sym (
                and_then_assoc (read_file_to_buffer s) (λ r. send_read r.0 r.1)
                  (λ r. go_on r.0 r.1)))
              (Returns-and_then (λ r. IsSound r.1) (λ r. IsSound r.1)
                ((read_file_to_buffer >>= send_read) s) (λ r. go_on r.0 r.1)
                (read_and_send s v open_window)
                (λ r w.
                  after_send-Keeps (suc fuel) stack socket_num (send_loop fuel stack socket_num)
                    (send_loop-Keeps fuel stack socket_num) r.0 r.1 w)))
      ]

  wait_loop-Keeps :
      (fuel : ℕ) (stack : ℕ → ℕ) (socket_num attempts : ℕ)
      → Keeps (wait_loop fuel stack socket_num attempts)
  unfolding wait_loop
  wait_loop-Keeps zero stack socket_num attempts = λ s v. tt
  wait_loop-Keeps (suc fuel) stack socket_num attempts =
      Keeps-bind get _ (λ s v. v)
        (λ s.
          Keeps-if (s.window.current == s.window.highest) _ (return false)
            (Keeps-bind (on_net poll) _ (on_net-Keeps poll) (λ ready.
              Keeps-if (is_timeout ready) _ _
                (Keeps-if (leb 10 (attempts + 1)) (return true) _ (λ t v. v)
                  (Keeps-bind get _ (λ t v. v)
                    (λ t.
                      Keeps-bind (resend_packet s.window.lowest flag_resent_timeout) _
                        (resend_packet-Keeps s.window.lowest flag_resent_timeout)
                        (λ u. wait_loop-Keeps fuel stack socket_num (attempts + 1)))))
                (Keeps-if (returned socket_num ready) _ _
                  (Keeps-bind (process_rr_srej_eof stack) _ (process_rr_srej_eof-Keeps stack)
                    (λ flag. wait_loop-Keeps fuel stack socket_num attempts))
                  (wait_loop-Keeps fuel stack socket_num attempts))))
            (λ t v. v))

  -- If handle_send_data returns from a state in which the window invariant of the server holds and
  -- the current number is below the largest int, so is the state that it leaves, whatever arrives
  -- meanwhile.
  pub handle_send_data-IsSound :
      (fuel : ℕ) (stack : ℕ → ℕ) (socket_num : ℕ) (s : Server)
      → IsSound s
      → Returns (λ r. IsSound r.1) (handle_send_data fuel stack socket_num s)
  unfolding handle_send_data
  handle_send_data-IsSound fuel stack socket_num =
      Keeps-bind (send_loop fuel stack socket_num) _ (send_loop-Keeps fuel stack socket_num)
        (λ at_end.
          Keeps-if at_end (return wait_eof_ack) _ (λ s v. v)
            (Keeps-bind (wait_loop fuel stack socket_num 0) _
              (wait_loop-Keeps fuel stack socket_num 0)
              (λ timed_out.
                Keeps-if timed_out (return done) (return send_file) (λ s v. v) (λ s v. v))))

  eof_loop-Keeps : (fuel : ℕ) (stack : ℕ → ℕ) (attempt : ℕ) → Keeps (eof_loop fuel stack attempt)
  unfolding eof_loop send_eof
  eof_loop-Keeps zero stack attempt = λ s v. tt
  eof_loop-Keeps (suc fuel) stack attempt =
      Keeps-if (ltb attempt 10) _ (return done)
        (Keeps-bind send_eof _ (Keeps-bind get _ (λ s v. v) (λ s. on_net-Keeps (safe_sendto _)))
          (λ u. Keeps-bind (on_net poll) _ (on_net-Keeps poll) (λ ready.
            Keeps-if (is_timeout ready) _ _ (eof_loop-Keeps fuel stack (attempt + 1)) (
              Keeps-bind (process_rr_srej_eof stack) _ (process_rr_srej_eof-Keeps stack) (λ flag.
                Keeps-if (returned flag_eof flag) (return done) _ (λ s v. v)
                  (eof_loop-Keeps fuel stack 0))))))
        (λ s v. v)

  -- If the child's loop ends, begun in any of its states with the window invariant and a current
  -- number below the largest int, then both still hold.
  pub child_loop-IsSound :
      (fuel inner : ℕ) (stack : ℕ → ℕ) (socket_num : ℕ) (state : ServerState) (s : Server)
      → IsSound s
      → Returns (λ r. IsSound r.1) (child_loop fuel inner stack socket_num state s)
  unfolding child_loop handle_wait_eof_ack
  child_loop-IsSound zero inner stack socket_num state s v = tt
  child_loop-IsSound (suc fuel) inner stack socket_num done s v = v
  child_loop-IsSound (suc fuel) inner stack socket_num send_file s v =
      Keeps-bind (handle_send_data inner stack socket_num) _
        (handle_send_data-IsSound inner stack socket_num)
        (λ next. child_loop-IsSound fuel inner stack socket_num next) s v
  child_loop-IsSound (suc fuel) inner stack socket_num wait_eof_ack s v =
      Keeps-bind (handle_wait_eof_ack inner stack) _ (eof_loop-Keeps inner stack 0)
        (λ next. child_loop-IsSound fuel inner stack socket_num next) s v
  child_loop-IsSound (suc fuel) inner stack socket_num filename_ack s v =
      child_loop-IsSound fuel inner stack socket_num done s v
