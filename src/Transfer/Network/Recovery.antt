-- ===== src/Transfer/Network/Recovery.antt =====
-- How a time-out of the server gets a transfer with a full window going again.
mod Tests
use native.Mathlib.Decide.{ℕ_discrete}
use cpe464_program.Common.{
  List, [], arith, drop, inl, inr, length, length-take, ok, refl, some, subst, sym, ℕ, ◌%◌, ◌*◌,
  ◌++◌, ◌+◌, ◌<◌, ◌^◌, ◌∙◌, ◌∷◌, ◌≡◌, ◌≢◌, ◌≤◌, ◌⊎◌,
}
use cpe464_program.Buffer.{CircularBuffer, Memory, block, buffer_init}
use cpe464_program.Checksum.{in_cksum}
use cpe464_program.Checksum.Sum.{IsBytes}
use cpe464_program.Net.{Net}
use cpe464_program.Packet.{
  build_packet, byte_at, flag_eof, flag_resent_timeout, header_size, load_net32, max_payload_size,
  max_pdu, rr_packet,
}
use cpe464_program.Packet.Fields.{build_packet_fields, control_packet_fields}
use cpe464_program.Packet.Layout.{build_packet_verifies, control_packet_verifies}
use cpe464_program.Poll.{Answer, poll_call}
use cpe464_program.Rcopy.{
  Rcopy, RecvState, buffering, finished, flush, inorder, receive_data_fsm, zeroed,
}
use cpe464_program.Rcopy.Delivery.File.{block_of}
use cpe464_program.Server.{Server}
use cpe464_program.Server.Blocks.Resend.{resend_packet_lem}
use cpe464_program.Server.Outstanding.{IsDue}
use cpe464_program.Server.Window.{process_packet_rr}
use cpe464_program.Transfer.{IsBytes-block_of}
use cpe464_program.Transfer.Network.{
  IsIn, Reach, Step, System, hears, here, listening, next, receives, times_out,
}
use cpe464_program.Transfer.Network.Replies.{
  IsIn-last, heard_by, receive_buffering-answers, receive_buffering-writes,
  receive_data_fsm_buffers, receive_data_fsm_hears, receive_inorder-replies, rr_packet-fits,
}
use cpe464_program.Transfer.Network.Safety.{IsSafe, Reach-IsSafe, begun, begun_by-IsSafe}

module _ (chunk_size : ℕ) (file : List ℕ) (small : chunk_size ≤ max_payload_size)
    (bytes : IsBytes file) (stack : ℕ → ℕ) (sock_num : ℕ) where
  -- An RR of a number between the oldest outstanding packet and the current number is due.
  rr-IsDue :
      (s : Server) (m : ℕ)
      → m < 2 ^ 32
      → s.window.lowest ≤ m
      → m ≤ s.window.current
      → IsDue chunk_size file small stack s (rr_packet m)
  rr-IsDue s m room low high =
      let (srej_number, rr_number, srej_flag, rr_marked) = control_packet_fields stack m room in
      record {
        damaged = λ bad. absurd (bad (control_packet_verifies m).1);
        moves = λ good marked. (omega (arith, rr_number), omega (arith, rr_number));
        asks = λ good marked. absurd (omega (arith, rr_marked, marked));
      }

  -- The oldest outstanding block, as it is resent at a time-out.
  abbrev oldest : Server → List ℕ
  oldest s =
      build_packet s.window.lowest flag_resent_timeout (block_of chunk_size file s.window.lowest)

  oldest_lem :
      (s : Server)
      → s.window.lowest < 2 ^ 31
      → (in_cksum (oldest s) ≡ 0)
        × (byte_at zeroed (oldest s) 6 ≢ flag_eof)
        × (load_net32 zeroed (oldest s) 0 ≡ s.window.lowest)
        × (header_size ≤ length (oldest s))
        × (length (oldest s) ≤ max_pdu)
  oldest_lem s room =
      let low = s.window.lowest in
      let block = block_of chunk_size file low in
      let short : length block ≤ chunk_size =
        omega (arith, length-take chunk_size (drop (low * chunk_size) file)) in
      let (number, marked, content, long) =
        build_packet_fields zeroed low flag_resent_timeout block (omega arith) in
      (
        build_packet_verifies low flag_resent_timeout block (omega arith)
            (IsBytes-block_of chunk_size file low bytes) (omega (arith, short)),
        λ e. omega (arith, e, marked),
        number,
        omega (arith, long),
        omega (arith, long, short),
      )

  -- The server after the time-out, and both when the client has taken the block.
  abbrev resent : Server → Server
  resent s = record s { net = record s.net { sent = s.net.sent ++ (oldest s ∷ []) } }

  abbrev taken : System → RecvState → Rcopy → System
  taken y state c = record y { server = resent y.server; client = c; state = state }

  module _ (y : System) (v : IsSafe chunk_size file small bytes stack sock_num y)
      (outstanding : y.server.window.lowest < y.server.window.current)
      (full : y.server.window.current ≡ y.server.window.highest) (a : Answer) where
    oldest_is_taken :
        (state : RecvState) (c : Rcopy)
        → receive_data_fsm sock_num y.state (listening a (oldest y.server) y.client) ≡ ok (state, c)
        → state ≢ finished
        → Reach chunk_size file small stack sock_num y (taken y state c)
    oldest_is_taken state c run going =
        let s = y.server in
        let w = v.sending.windowed in
        let (good, plain, number, long, short) = oldest_lem s (omega (arith, w.room)) in
        next
          (next here (
            times_out outstanding full (
              resend_packet_lem chunk_size file small s s.window.lowest flag_resent_timeout
                w.serving outstanding w.near)))
          (receives (oldest s) a (inl (IsIn-last (oldest s) s.net.sent))
            (λ e later. absurd (omega (arith, later, number, v.acked))) run going)

    oldest_is_acknowledged :
        (state : RecvState) (c : Rcopy) (m : ℕ)
        → receive_data_fsm sock_num y.state (listening a (oldest y.server) y.client) ≡ ok (state, c)
        → state ≢ finished
        → c.net.sent ≡ y.client.net.sent ++ (rr_packet m ∷ [])
        → y.server.window.lowest < m
        → m ≤ y.server.window.current
        → (z : System) × Reach chunk_size file small stack sock_num y z
          × (y.server.window.lowest < z.server.window.lowest)
    oldest_is_acknowledged state c m run going replied above ahead =
        let u = resent y.server in
        let x = taken y state c in
        let room = v.sending.windowed.room in
        let (srej_number, rr_number, srej_flag, rr_marked) =
          control_packet_fields stack m (omega (arith, room)) in
        let t : Server = record u {
          window = record u.window { lowest = m; highest = (m + u.window.size) % 2 ^ 32 };
        } in
        let heard : Step chunk_size file small stack sock_num x (record x { server = t }) =
          hears (rr_packet m)
            (inl (
              subst (λ l. IsIn (rr_packet m) l) (sym replied)
                (IsIn-last (rr_packet m) y.client.net.sent)))
            (rr_packet-fits m) (rr-IsDue u m (omega (arith, room)) (omega (arith, above)) ahead)
            (process_packet_rr stack (rr_packet m) m u (control_packet_verifies m).1 rr_marked
              rr_number) in
        (record x { server = t }, next (oldest_is_taken state c run going) heard, above)

    -- The client goes on, or the window of the server.
    abbrev Moves : System → Type 0
    Moves z =
        (y.server.window.lowest < z.server.window.lowest)
        ⊎ (y.client.buffer.current < z.client.buffer.current)

    inorder-recovers :
        y.state ≡ inorder
        → poll_call y.client.net.poll_set a ≡ ok (some sock_num)
        → (z : System) × Reach chunk_size file small stack sock_num y z × Moves z
    inorder-recovers in_order polled =
        let room = v.sending.windowed.room in
        let behind = v.receiving.behind in
        let (good, plain, number, long, short) = oldest_lem y.server (omega (arith, room)) in
        let (c, m, received, replied, above, up_to) =
          receive_inorder-replies (oldest y.server) (heard_by y.client) good plain
            (omega (arith, number, v.acked)) long (omega (arith, behind, room)) in
        let run =
          receive_data_fsm_hears sock_num a (oldest y.server) y.client polled short ∙ received in
        let (z, steps, up) =
          oldest_is_acknowledged inorder c m
            (subst
              (λ st.
                receive_data_fsm sock_num st (listening a (oldest y.server) y.client)
                ≡ ok (inorder, c))
              (sym in_order) run)
            (λ e. cc) replied (omega (arith, above, number))
            (elim up_to [
              | inl passed ↦ omega (arith, passed, behind)
              | inr next_one ↦ omega (arith, next_one, number, outstanding)
            ]) in
        (z, steps, inl up)

    buffering-recovers :
        y.state ≡ buffering
        → poll_call y.client.net.poll_set a ≡ ok (some sock_num)
        → (z : System) × Reach chunk_size file small stack sock_num y z × Moves z
    buffering-recovers buffers polled =
        let q = oldest y.server in
        let room = v.sending.windowed.room in
        let behind = v.receiving.behind in
        let (good, plain, number, long, short) = oldest_lem y.server (omega (arith, room)) in
        let heard = receive_data_fsm_buffers sock_num a q y.client polled short in
        elim (ℕ_discrete (load_net32 zeroed q 0) y.client.buffer.current) [
          | yes now ↦
              (let (c, received, up) =
                  receive_buffering-writes q (heard_by y.client) good plain now long
                    (omega (arith, behind, room)) in
                (
                  taken y flush c,
                  oldest_is_taken flush c
                      (subst
                        (λ st.
                          receive_data_fsm sock_num st (listening a q y.client) ≡ ok (flush, c))
                        (sym buffers) (heard ∙ received))
                      (λ e. cc),
                  inr (omega (arith, up)),
                ))
          | no other ↦
              (let c : Rcopy = record (heard_by y.client) {
                net = record (heard_by y.client).net {
                  sent = y.client.net.sent ++ (rr_packet y.client.buffer.current ∷ []);
                };
              } in
                let (z, steps, up) =
                  oldest_is_acknowledged buffering c y.client.buffer.current
                    (subst
                      (λ st.
                        receive_data_fsm sock_num st (listening a q y.client) ≡ ok (buffering, c))
                      (sym buffers)
                      (heard
                        ∙ receive_buffering-answers q (heard_by y.client) good plain
                            (omega (arith, number, v.acked))))
                    (λ e. cc) refl (omega (arith, number, v.acked)) behind in
                (z, steps, inl up))
        ]

  -- From the same start as for Reach-IsPrefix, in every state that the two programs reach by those
  -- steps in which the window of the server is full, a block is outstanding, the client receives in
  -- order or is buffering and an answer of its poll reports its socket, whatever was lost or damaged
  -- before, there are more steps after which the server's `lowest` or the client's `current` has
  -- gone up.
  pub full_window_moves :
      {y : System} (m_s m_c : Memory) (window_size highest : ℕ) (window buffer : CircularBuffer)
      (server_net client_net : Net) (a : Answer)
      → 0 < window_size
      → highest ≤ window_size
      → buffer_init m_s window_size chunk_size highest ≡ ok window
      → buffer_init m_c window_size chunk_size 0 ≡ ok buffer
      → server_net.sent ≡ []
      → client_net.sent ≡ []
      → Reach chunk_size file small stack sock_num
          (begun chunk_size file small bytes stack sock_num window buffer server_net client_net)
          y
      → (y.state ≡ inorder) ⊎ (y.state ≡ buffering)
      → y.server.window.lowest < y.server.window.current
      → y.server.window.current ≡ y.server.window.highest
      → poll_call y.client.net.poll_set a ≡ ok (some sock_num)
      → (z : System) × Reach chunk_size file small stack sock_num y z
        × ((y.server.window.lowest < z.server.window.lowest)
            ⊎ (y.client.buffer.current < z.client.buffer.current))
  full_window_moves {y} m_s m_c window_size highest window buffer server_net client_net a pos low ms
        mc es ec reach receiving outstanding full polled =
      let first =
        begun_by-IsSafe chunk_size file small bytes stack sock_num m_s m_c window_size highest
          window buffer server_net client_net pos low ms mc es ec in
      let v = Reach-IsSafe chunk_size file small bytes stack sock_num first reach in
      elim receiving [
        | inl in_order ↦ inorder-recovers y v outstanding full a in_order polled
        | inr buffers ↦ buffering-recovers y v outstanding full a buffers polled
      ]
