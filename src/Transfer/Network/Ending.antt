-- ===== src/Transfer/Network/Ending.antt =====
-- How the two programs end a transfer on such a network: the child of server.c has read past the end of the
-- file and waits in `handle_wait_EOF_ack`, and the client of rcopy.c goes on until it is finished.
mod Tests
use native.Mathlib.Decide.{ℕ_discrete}
use cpe464_program.Common.{
  Bool, List, Option, [], ap, arith, drop, drop_of_length_le, inl, inr, length, length-drop,
  length-take, ok, ok-injective, refl, slt, some, subst, sym, take-nil, take_of_length_le, true, ℕ,
  ◌*◌, ◌+◌, ◌<◌, ◌>>=◌, ◌^◌, ◌∙◌, ◌≡◌, ◌≢◌, ◌≤◌, ◌⊎◌,
}
use cpe464_program.Buffer.{CircularBuffer, Memory, buffer_init}
use cpe464_program.Checksum.{in_cksum}
use cpe464_program.Checksum.Sum.{IsBytes}
use cpe464_program.Net.{Net}
use cpe464_program.Packet.{byte_at, flag_eof, max_payload_size, max_pdu}
use cpe464_program.Packet.Fields.{control_packet_fields}
use cpe464_program.Poll.{Answer}
use cpe464_program.Rcopy.{Rcopy, RecvState, finished, receive_data_fsm}
use cpe464_program.Rcopy.Acks.{IsReply, eof, rr, srej}
use cpe464_program.Rcopy.Delivery.File.{block_of, written-block_of}
use cpe464_program.Server.{Server, process_packet, read_file_to_buffer, send_eof, send_read}
use cpe464_program.Server.Blocks.Send.{send_at_end, send_next}
use cpe464_program.Server.Outstanding.{IsDue}
use cpe464_program.Transfer.Network.{Arrives, IsInOrder, Reach, System, listening}
use cpe464_program.Transfer.Network.Closing.{
  IsClosing, IsEofRr, IsSending-IsClosing, process_packet-IsClosing, process_packet_flag,
  send_eof-IsClosing,
}
use cpe464_program.Transfer.Network.Receiver.{All-IsIn, IsReceiving, IsReceiving-mono, receives_lem}
use cpe464_program.Transfer.Network.Safety.{IsSafe, Reach-IsSafe, begun, begun_by-IsSafe}

module _ (chunk_size : ℕ) (file : List ℕ) (small : chunk_size ≤ max_payload_size) (stack : ℕ → ℕ)
    (sock_num : ℕ) where
  pub data EndStep : System → System → Type 0 where
    -- The server sends its EOF, for the first time or again.
    sends_eof :
        {y : System} {t : Server}
        → send_eof y.server ≡ ok (tt, t)
        → EndStep y (record y { server = t })
    -- A reply of the client comes to the server, and is due, or is the RR of the EOF.
    hears_end :
        {y : System} {flag : Option ℕ} {t : Server} (p : List ℕ)
        → Arrives y.client.net.sent p
        → IsDue chunk_size file small stack y.server p ⊎ IsEofRr y.server.window.current stack p
        → process_packet stack p y.server ≡ ok (flag, t)
        → EndStep y (record y { server = t })
    -- A packet of the server comes to the client, which goes on or is finished.
    receives_end :
        {y : System} {state : RecvState} {c : Rcopy} (p : List ℕ) (a : Answer)
        → y.state ≢ finished
        → Arrives y.server.net.sent p
        → IsInOrder y.state y.client.buffer p
        → receive_data_fsm sock_num y.state (listening a p y.client) ≡ ok (state, c)
        → EndStep y (record y { client = c; state = state })

  -- From `y` on: the blocks, the read that finds no more, and the EOF.
  pub data Ends (y : System) : System → Type 0 where
    reads_past :
        {z : System} {t : Server}
        → Reach chunk_size file small stack sock_num y z
        → slt z.server.window.current z.server.window.highest ≡ true
        → (read_file_to_buffer >>= send_read) z.server ≡ ok (true, t)
        → Ends y (record z { server = t })
    goes_on : {z w : System} → Ends y z → EndStep z w → Ends y w

-- One of the programs ends the transfer: the client is finished, or `process_rr_srej_eof` of the server
-- returns the flag of an EOF for a packet that comes from the client.
pub data IsOver (stack : ℕ → ℕ) (y : System) : Type 0 where
  client_is_finished : y.state ≡ finished → IsOver stack y
  server_heard :
      (p : List ℕ) (t : Server)
      → Arrives y.client.net.sent p
      → length p ≤ max_pdu
      → process_packet stack p y.server ≡ ok (some flag_eof, t)
      → IsOver stack y

module _ (chunk_size : ℕ) (file : List ℕ) (small : chunk_size ≤ max_payload_size)
    (bytes : IsBytes file) (stack : ℕ → ℕ) (sock_num : ℕ) where
  -- The EOF is packet `n`, and within the window of the client.
  pub record IsEnding (n : ℕ) (y : System) : Type 0 where
    pub closing : IsClosing chunk_size file small n y.server
    pub receiving : IsReceiving chunk_size file small bytes (n + 1) y.state y.client
    near : n < y.client.buffer.current + y.client.buffer.size
    pub room : n + 1 < 2 ^ 31
    fits : length file ≤ n * chunk_size

  reads_past-IsEnding :
      (y : System) (t : Server)
      → 0 < chunk_size
      → IsSafe chunk_size file small bytes stack sock_num y
      → slt y.server.window.current y.server.window.highest ≡ true
      → (read_file_to_buffer >>= send_read) y.server ≡ ok (true, t)
      → IsEnding y.server.window.current (record y { server = t })
  reads_past-IsEnding y t pos v open_window run =
      let n = y.server.window.current in
      let w = v.sending.windowed in
      let room : n + 1 < 2 ^ 31 = ground (arith, w.room, open_window) in
      elim (ℕ_discrete (length (block_of chunk_size file n)) 0) [
        | no more ↦
            (let (u, sent_next, serving, up, kept, sent) =
                send_next chunk_size file small y.server w.serving room (omega arith) in
              absurd (cc))
        | yes none_left ↦
            (let stays : y.server ≡ t =
                ap (λ (r : Bool × Server). r.1)
                  (ok-injective (
                    sym (send_at_end chunk_size file small y.server w.serving w.room none_left)
                    ∙ run)) in
              subst (λ u. IsEnding n (record y { server = u })) stays
                (record {
                  closing = IsSending-IsClosing chunk_size file small n y.server refl v.sending;
                  receiving =
                      IsReceiving-mono chunk_size file small bytes n (n + 1) y.state y.client
                        (omega arith) v.going v.receiving;
                  near = ground (arith, v.acked, v.sizes, w.room, w.high, open_window);
                  room = room;
                  fits = omega (
                    arith,
                    none_left,
                    length-take chunk_size (drop (n * chunk_size) file),
                    length-drop (n * chunk_size) file,
                  );
                }))
      ]

  no_block : (n : ℕ) → length file ≤ n * chunk_size → block_of chunk_size file n ≡ []
  no_block n fits = rw (drop_of_length_le (n * chunk_size) file fits) (take-nil chunk_size)

  EndStep-IsEnding :
      (n : ℕ) {y z : System}
      → EndStep chunk_size file small stack sock_num y z
      → IsEnding n y
      → IsEnding n z
  EndStep-IsEnding n (sends_eof {y} {t} run) v = record {
    closing =
        send_eof-IsClosing chunk_size file small n y.server t (no_block n v.fits) v.closing run;
    receiving = v.receiving;
    near = v.near;
    room = v.room;
    fits = v.fits;
  }
  EndStep-IsEnding n (hears_end {y} {flag} {t} p arrived due run) v = record {
    closing =
        process_packet-IsClosing chunk_size file small n stack p y.server t flag v.room v.closing
          (subst (λ m. IsDue chunk_size file small stack y.server p ⊎ IsEofRr m stack p)
            v.closing.number due)
          run;
    receiving = v.receiving;
    near = v.near;
    room = v.room;
    fits = v.fits;
  }
  EndStep-IsEnding n (receives_end {y} {state} {c} p a going arrived in_order run) v =
      let (receiving, same, forward) =
        receives_lem chunk_size file small bytes sock_num (n + 1) y.state state y.client c
          y.server.net.sent p a going v.receiving v.room (omega (arith, v.near)) v.closing.parts
          arrived in_order run in
      record {
        closing = v.closing;
        receiving = receiving;
        near = omega (arith, v.near, same, forward);
        room = v.room;
        fits = v.fits;
      }

  pub Ends-IsEnding :
      {y z : System}
      → 0 < chunk_size
      → IsSafe chunk_size file small bytes stack sock_num y
      → Ends chunk_size file small stack sock_num y z
      → (n : ℕ) × IsEnding n z
  Ends-IsEnding pos v (reads_past {z} {t} reach open_window run) = (
    z.server.window.current,
    reads_past-IsEnding z t pos (Reach-IsSafe chunk_size file small bytes stack sock_num v reach)
        open_window run,
  )
  Ends-IsEnding pos v (goes_on ends step) =
      let (n, w) = Ends-IsEnding pos v ends in (n, EndStep-IsEnding n step w)

  -- Only a finished client has sent an EOF.
  reply_flag :
      {E : Type 0} (m : ℕ) (p : List ℕ)
      → m < 2 ^ 32
      → IsReply E m p
      → byte_at stack p 6 ≡ flag_eof
      → E
  reply_flag m _ room (rr k h) marked =
      absurd (omega (arith, (control_packet_fields stack k (omega arith)).3, marked))
  reply_flag m _ room (srej k h) marked =
      absurd (omega (arith, (control_packet_fields stack k (omega arith)).2, marked))
  reply_flag m _ room (eof e) marked = e

  IsOver-finished : (n : ℕ) (y : System) → IsEnding n y → IsOver stack y → y.state ≡ finished
  IsOver-finished n y v (client_is_finished e) = e
  IsOver-finished n y v (server_heard p t arrived short run) =
      let (verified, marked) = process_packet_flag stack p y.server t flag_eof run in
      elim arrived [
        | inl was_sent ↦
            reply_flag y.client.buffer.current p (omega (arith, v.receiving.behind, v.room))
              (All-IsIn (IsReply (y.state ≡ finished) y.client.buffer.current) y.client.net.sent p
                v.receiving.replies was_sent)
              marked
        | inr damaged ↦
            absurd (damaged.1 (ap in_cksum (take_of_length_le max_pdu p short) ∙ verified))
      ]

  -- From the same start, with blocks of at least one byte, let the server read past the end of the
  -- file with room in its window, and then the two go on by steps on the same network, in which the
  -- server sends its EOF, once or more often, and handles replies that are due or the RR of the EOF,
  -- and the client handles packets under the same condition. If then the client is finished, or
  -- process_rr_srej_eof returns the flag of an EOF for a packet that arrives at the server on that
  -- network, the output file is the file.
  pub Ends-IsDelivered :
      {z : System} (m_s m_c : Memory) (window_size highest : ℕ) (window buffer : CircularBuffer)
      (server_net client_net : Net)
      → 0 < chunk_size
      → 0 < window_size
      → highest ≤ window_size
      → buffer_init m_s window_size chunk_size highest ≡ ok window
      → buffer_init m_c window_size chunk_size 0 ≡ ok buffer
      → server_net.sent ≡ []
      → client_net.sent ≡ []
      → Ends chunk_size file small stack sock_num
          (begun chunk_size file small bytes stack sock_num window buffer server_net client_net)
          z
      → IsOver stack z
      → z.client.out_file ≡ file
  Ends-IsDelivered {z} m_s m_c window_size highest window buffer server_net client_net big pos low
        ms mc es ec ends over =
      let first =
        begun_by-IsSafe chunk_size file small bytes stack sock_num m_s m_c window_size highest
          window buffer server_net client_net pos low ms mc es ec in
      let (n, v) = Ends-IsEnding big first ends in
      let all : z.client.buffer.current ≡ n + 1 =
        omega (arith, v.receiving.faithful.complete (IsOver-finished n z v over)) in
      v.receiving.faithful.file
      ∙ written-block_of chunk_size file z.client.buffer.current
      ∙ take_of_length_le (z.client.buffer.current * chunk_size) file
          (subst (λ k. length file ≤ k * chunk_size) (sym all) (omega (arith, v.fits)))
