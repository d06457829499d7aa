-- ===== src/Transfer/Network/Safety.antt =====
-- What holds in every state that the two programs can reach together.
use cpe464_program.Common.{
  All, Ensures-ok, List, [], ap, arith, inl, inr, ok, sym, take, take_of_length_le, ℕ, ◌*◌, ◌+◌,
  ◌-◌, ◌<◌, ◌^◌, ◌∙◌, ◌≡◌, ◌≢◌, ◌≤◌,
}
use cpe464_program.Buffer.{CircularBuffer, Memory, buffer_init}
use cpe464_program.Buffer.Init.{IsInitial, buffer_init-IsInitial}
use cpe464_program.Checksum.{in_cksum}
use cpe464_program.Checksum.Sum.{IsBytes}
use cpe464_program.Net.{Net}
use cpe464_program.Packet.{byte_at, flag_eof, flag_rr, load_net32, max_payload_size, max_pdu}
use cpe464_program.Packet.Fields.{build_packet_fields, control_packet_fields}
use cpe464_program.Rcopy.{finished, inorder}
use cpe464_program.Rcopy.Acks.{IsReply, eof, rr, srej}
use cpe464_program.Rcopy.Delivery.File.{block_of, start, start-IsFaithful, written-block_of}
use cpe464_program.Server.{Server}
use cpe464_program.Server.Blocks.{start-IsServing}
use cpe464_program.Transfer.Network.{
  Reach, Step, System, hears, here, next, receives, sends, times_out,
}
use cpe464_program.Transfer.Network.Receiver.{All-IsIn, IsReceiving, IsReceiving-mono, receives_lem}
use cpe464_program.Transfer.Network.Sender.{
  IsBlock, IsBlock-IsPart, IsSending, Onward, hears_lem, sends_lem, times_out_lem,
}

-- An RR among the replies carries a number that the client has reached.
reply_number :
    {E : Type 0} (stack : ℕ → ℕ) (n : ℕ) (p : List ℕ)
    → n < 2 ^ 32
    → IsReply E n p
    → byte_at stack p 6 ≡ flag_rr
    → load_net32 stack p 7 ≤ n
reply_number stack n _ room (rr k h) marked =
    omega (arith, (control_packet_fields stack k (omega arith)).1)
reply_number stack n _ room (srej k h) marked =
    absurd (omega (arith, (control_packet_fields stack k (omega arith)).2, marked))
reply_number stack n _ room (eof e) marked =
    absurd (omega (arith, (build_packet_fields stack 0 flag_eof [] (omega arith)).1, marked))

module _ (chunk_size : ℕ) (file : List ℕ) (small : chunk_size ≤ max_payload_size)
    (bytes : IsBytes file) (stack : ℕ → ℕ) (sock_num : ℕ) where
  pub record IsSafe (y : System) : Type 0 where
    pub sending : IsSending chunk_size file small y.server
    pub going : y.state ≢ finished
    pub receiving : IsReceiving chunk_size file small bytes y.server.window.current y.state y.client
    pub sizes : y.client.buffer.size ≡ y.server.window.size
    pub acked : y.server.window.lowest ≤ y.client.buffer.current

  -- After a step of the server.
  server_moves :
      (y : System) (t : Server)
      → IsSafe y
      → Onward chunk_size file small y.server t
      → t.window.lowest ≤ y.client.buffer.current
      → IsSafe (record y { server = t })
  server_moves y t v (sending, same, up) low = record {
    sending = sending;
    going = v.going;
    receiving =
        IsReceiving-mono chunk_size file small bytes y.server.window.current t.window.current
          y.state y.client up v.going v.receiving;
    sizes = v.sizes ∙ sym same;
    acked = low;
  }

  Step-IsSafe : {y z : System} → Step chunk_size file small stack sock_num y z → IsSafe y → IsSafe z
  Step-IsSafe (sends {y} {over} {t} open_window run) v =
      let (onward, low) =
        sends_lem chunk_size file small y.server t over v.sending open_window run in
      server_moves y t v onward (omega (arith, v.acked, low))
  Step-IsSafe (times_out {y} {t} outstanding full run) v =
      let (onward, low) =
        times_out_lem chunk_size file small y.server t v.sending outstanding run in
      server_moves y t v onward (omega (arith, v.acked, low))
  Step-IsSafe (hears {y} {flag} {t} p arrived short due run) v =
      let (onward, moved) =
        hears_lem chunk_size file small stack p y.server t flag v.sending due run in
      server_moves y t v onward (elim moved [
        | inl still ↦ omega (arith, v.acked, still)
        | inr (good, marked, to) ↦ elim arrived [
          | inl was_sent ↦ omega (
            arith,
            to,
            reply_number stack y.client.buffer.current p
                (omega (arith, v.receiving.behind, v.sending.windowed.room))
                (All-IsIn (IsReply (y.state ≡ finished) y.client.buffer.current) y.client.net.sent p
                  v.receiving.replies was_sent)
                marked,
          )
          | inr damaged ↦
              absurd (damaged.1 (ap in_cksum (take_of_length_le max_pdu p short) ∙ good))
        ]
      ])
  Step-IsSafe (receives {y} {state} {c} p a arrived in_order run going) v =
      let w = v.sending.windowed in
      let (receiving, same, forward) =
        receives_lem chunk_size file small bytes sock_num y.server.window.current y.state state
          y.client c y.server.net.sent p a v.going v.receiving w.room
          (omega (arith, w.near, v.acked, v.sizes))
          (IsBlock-IsPart chunk_size file y.server.window.current y.server.window.current
            y.server.net.sent (omega arith) v.sending.blocks)
          arrived in_order run in
      record {
        sending = v.sending;
        going = going;
        receiving = receiving;
        sizes = same ∙ v.sizes;
        acked = omega (arith, v.acked, forward);
      }

  pub Reach-IsSafe :
      {y z : System} → IsSafe y → Reach chunk_size file small stack sock_num y z → IsSafe z
  Reach-IsSafe v here = v
  Reach-IsSafe v (next r step) = Step-IsSafe step (Reach-IsSafe v r)

  -- Both programs with the buffers that `buffer_init` made, and nothing sent.
  abbrev pub begun : CircularBuffer → CircularBuffer → Net → Net → System
  begun window buffer server_net client_net = record {
    server = record { net = server_net; window = window; export_file = file };
    client = start buffer client_net;
    state = inorder;
  }

  begun-IsSafe :
      (window_size highest : ℕ) (window buffer : CircularBuffer) (server_net client_net : Net)
      → 0 < window_size
      → highest ≤ window_size
      → IsInitial window_size chunk_size highest window
      → IsInitial window_size chunk_size 0 buffer
      → server_net.sent ≡ []
      → client_net.sent ≡ []
      → IsSafe (begun window buffer server_net client_net)
  begun-IsSafe window_size highest window buffer server_net client_net pos low w b es ec = record {
    sending = record {
      windowed = record {
        serving = start-IsServing chunk_size file server_net pos w;
        room = omega (arith, w.counters);
        low = omega (arith, w.counters);
        near = omega (arith, w.counters);
        high = omega (arith, w.counters, w.sizes);
      };
      blocks = rw es tt;
    };
    going = λ e. cc;
    receiving = record {
      faithful = start-IsFaithful (block_of chunk_size file) (window.current - 1) pos b;
      behind = omega (arith, w.counters, b.counters);
      chunk = b.sizes.1;
      replies = rw ec tt;
    };
    sizes = b.sizes.0 ∙ sym w.sizes.0;
    acked = omega (arith, w.counters, b.counters);
  }

  pub begun_by-IsSafe :
      (m_s m_c : Memory) (window_size highest : ℕ) (window buffer : CircularBuffer)
      (server_net client_net : Net)
      → 0 < window_size
      → highest ≤ window_size
      → buffer_init m_s window_size chunk_size highest ≡ ok window
      → buffer_init m_c window_size chunk_size 0 ≡ ok buffer
      → server_net.sent ≡ []
      → client_net.sent ≡ []
      → IsSafe (begun window buffer server_net client_net)
  begun_by-IsSafe m_s m_c window_size highest window buffer server_net client_net pos low ms mc es
        ec =
      begun-IsSafe window_size highest window buffer server_net client_net pos low
        (Ensures-ok (IsInitial window_size chunk_size highest)
          (buffer_init m_s window_size chunk_size highest) window ms
          (buffer_init-IsInitial m_s window_size chunk_size highest))
        (Ensures-ok (IsInitial window_size chunk_size 0) (buffer_init m_c window_size chunk_size 0)
          buffer mc (buffer_init-IsInitial m_c window_size chunk_size 0))
        es ec

  -- Take a server with the file and a client, both with nothing sent, with the buffers of
  -- buffer_init for the same sizes, of which the `highest` of the server is at most the window size,
  -- and blocks of at most 1400 bytes. Then in every state that they reach together by steps - the
  -- server sends the next block, or times out with a full window and resends, or handles a reply;
  -- the client handles a packet and goes on - on a network on which what arrives is any packet that
  -- was ever sent or one that does not verify, as long as the replies that the server handles are
  -- due and the client, while it is buffering, hears nothing older than its newest buffered packet:
  -- the output is the blocks of the file below the client's `current`; this lies between the
  -- server's `lowest` and `current`; these two are no further apart than the size of the window; and
  -- each packet that the server has sent is a block of the file below its `current` under its
  -- number, with a flag other than that of an EOF.
  pub Reach-IsPrefix :
      {z : System} (m_s m_c : Memory) (window_size highest : ℕ) (window buffer : CircularBuffer)
      (server_net client_net : Net)
      → 0 < window_size
      → highest ≤ window_size
      → buffer_init m_s window_size chunk_size highest ≡ ok window
      → buffer_init m_c window_size chunk_size 0 ≡ ok buffer
      → server_net.sent ≡ []
      → client_net.sent ≡ []
      → Reach chunk_size file small stack sock_num (begun window buffer server_net client_net) z
      → (z.client.out_file ≡ take (z.client.buffer.current * chunk_size) file)
        × (z.server.window.lowest ≤ z.client.buffer.current)
        × (z.client.buffer.current ≤ z.server.window.current)
        × (z.server.window.current ≤ z.server.window.lowest + z.server.window.size)
        × All (IsBlock chunk_size file z.server.window.current) z.server.net.sent
  Reach-IsPrefix {z} m_s m_c window_size highest window buffer server_net client_net pos low ms mc
        es ec reach =
      let first =
        begun_by-IsSafe m_s m_c window_size highest window buffer server_net client_net pos low ms
          mc es ec in
      let v = Reach-IsSafe first reach in
      (
        v.receiving.faithful.file ∙ written-block_of chunk_size file z.client.buffer.current,
        v.acked,
        v.receiving.behind,
        v.sending.windowed.near,
        v.sending.blocks,
      )
