-- ===== src/Server/Outstanding.antt =====
-- server.c: acknowledgements that are due, for a window that holds every packet that is outstanding.
use native.Mathlib.Decide.{ℕ_discrete}
use cpe464_program.Common.{
  ==→eq, ==→ne, Bool-cases, Ensures, Ensures-and_then, List, [], arith, inl, inr, length, refl, slt,
  true, ℕ, ◌%◌, ◌++◌, ◌+◌, ◌<◌, ◌==◌, ◌>>=◌, ◌^◌, ◌∷◌, ◌≡◌, ◌≢◌, ◌≤◌, ◌⊎◌,
}
use cpe464_program.Checksum.{in_cksum}
use cpe464_program.Packet.{
  build_packet, byte_at, flag_resent_data, flag_rr, flag_srej, load_net32, max_payload_size,
}
use cpe464_program.Rcopy.Delivery.File.{block_of}
use cpe464_program.Server.{
  Server, move_window, obey, process_packet, read_file_to_buffer, resend_packet, send_read,
}
use cpe464_program.Server.Answers.{IsServing-move}
use cpe464_program.Server.Blocks.{IsServing, IsServing-net}
use cpe464_program.Server.Blocks.Resend.{resend_packet_lem}
use cpe464_program.Server.Blocks.Send.{send_at_end, send_next}

module _ (chunk_size : ℕ) (file : List ℕ) (small : chunk_size ≤ max_payload_size) where
  -- The packets that are not acknowledged stand in the window, and its end is at most a window ahead.
  pub record IsWindowed (s : Server) : Type 0 where
    pub serving : IsServing chunk_size file s
    pub room : s.window.current < 2 ^ 31
    pub low : s.window.lowest ≤ s.window.current
    pub near : s.window.current ≤ s.window.lowest + s.window.size
    pub high : s.window.highest ≤ s.window.lowest + s.window.size

  -- An acknowledgement that can arrive when the client answers what was sent, and the network keeps the
  -- order of its answers: an RR neither goes back nor ahead of what was sent, an SREJ asks for an
  -- outstanding packet, and one is damaged only while a packet is outstanding.
  pub record IsDue (stack : ℕ → ℕ) (s : Server) (packet : List ℕ) : Type 0 where
    pub damaged : in_cksum packet ≢ 0 → s.window.lowest < s.window.current
    pub moves :
        in_cksum packet ≡ 0
        → byte_at stack packet 6 ≡ flag_rr
        → (s.window.lowest ≤ load_net32 stack packet 7)
          × (load_net32 stack packet 7 ≤ s.window.current)
    pub asks :
        in_cksum packet ≡ 0
        → byte_at stack packet 6 ≡ flag_srej
        → (s.window.lowest ≤ load_net32 stack packet 7)
          × (load_net32 stack packet 7 < s.window.current)

  -- Nothing is sent, or one outstanding block as it is in the file.
  abbrev pub IsAnswered {ℓ} : {A : Type ℓ} → Server → A × Server → Type 0
  IsAnswered s r =
      IsWindowed r.1
      × ((r.1.net.sent ≡ s.net.sent)
          ⊎ ((k : ℕ) × (s.window.lowest ≤ k)
              × (k < s.window.current)
              × (r.1.net.sent
                  ≡ s.net.sent
                    ++ (build_packet k flag_resent_data (block_of chunk_size file k) ∷ []))))

  resend_packet-IsAnswered :
      (s : Server) (k : ℕ)
      → IsWindowed s
      → s.window.lowest ≤ k
      → k < s.window.current
      → Ensures (IsAnswered s) (resend_packet k flag_resent_data s)
  resend_packet-IsAnswered s k v low below =
      rw
        (resend_packet_lem chunk_size file small s k flag_resent_data v.serving below
          (omega (arith, v.near)))
        (
          record {
            serving = IsServing-net chunk_size file s _ v.serving;
            room = v.room;
            low = v.low;
            near = v.near;
            high = v.high;
          },
          inr (k, low, below, refl),
        )

  move_window-IsAnswered :
      (s : Server) (n : ℕ)
      → IsWindowed s
      → s.window.lowest ≤ n
      → n ≤ s.window.current
      → Ensures (IsAnswered s) (move_window n s)
  move_window-IsAnswered s n v low below = (
    record {
      serving = IsServing-move chunk_size file s n ((n + s.window.size) % 2 ^ 32) v.serving;
      room = v.room;
      low = below;
      near = omega (arith, v.near);
      high = omega (arith, v.room, v.serving.shaped.small);
    },
    inl refl,
  )

  -- If every packet that is not acknowledged stands in the server's window, and the acknowledgement
  -- that arrives is due (an RR neither goes back nor ahead of what was sent, an SREJ asks for an
  -- outstanding packet, and a damaged one comes only while a packet is outstanding), then
  -- process_rr_srej_eof does nothing undefined, the window still holds what is outstanding, and what
  -- is sent is nothing or one outstanding block as it is in the file.
  pub process_packet-IsAnswered :
      (stack : ℕ → ℕ) (packet : List ℕ) (s : Server)
      → IsWindowed s
      → IsDue stack s packet
      → Ensures (IsAnswered s) (process_packet stack packet s)
  unfolding process_packet obey
  process_packet-IsAnswered stack packet s v due =
      let n = load_net32 stack packet 7 in
      elim (Bool-cases (in_cksum packet == 0)) [
        | inr bad ↦
            (let outstanding = due.damaged (==→ne (in_cksum packet) 0 bad) in
              rw bad (
                Ensures-and_then (IsAnswered s) (IsAnswered s)
                  (resend_packet s.window.lowest flag_resent_data s) _
                  (resend_packet-IsAnswered s s.window.lowest v (omega arith) outstanding)
                  (λ r h. h)))
        | inl good ↦
            (let verified = ==→eq (in_cksum packet) 0 good in
              elim (Bool-cases (byte_at stack packet 6 == flag_rr)) [
                | inl moved ↦
                    (let (low, below) =
                        due.moves verified (==→eq (byte_at stack packet 6) flag_rr moved) in
                      rw (good, moved) (move_window-IsAnswered s n v low below))
                | inr other ↦ elim (Bool-cases (byte_at stack packet 6 == flag_srej)) [
                  | inl asked ↦
                      (let (low, below) =
                          due.asks verified (==→eq (byte_at stack packet 6) flag_srej asked) in
                        rw (good, other, asked)
                          (Ensures-and_then (IsAnswered s) (IsAnswered s)
                            (resend_packet n flag_resent_data s) _
                            (resend_packet-IsAnswered s n v low below) (λ r h. h)))
                  | inr neither ↦ rw (good, other, neither) (v, inl refl)
                ]
              ])
      ]

  -- If every packet that is not acknowledged stands in the server's window, whose end is at most a
  -- window ahead, and the window is open, then read_file_to_buffer and send_data do nothing
  -- undefined and keep that.
  pub send_next-IsWindowed :
      (s : Server)
      → IsWindowed s
      → slt s.window.current s.window.highest ≡ true
      → Ensures (λ r. IsWindowed r.1) ((read_file_to_buffer >>= send_read) s)
  send_next-IsWindowed s v open_window =
      elim (ℕ_discrete (length (block_of chunk_size file s.window.current)) 0) [
        | yes none_left ↦ rw (send_at_end chunk_size file small s v.serving v.room none_left) v
        | no more ↦
            (let (t, sends, w, next, kept, sent) =
                send_next chunk_size file small s v.serving (ground (arith, v.room, open_window))
                  (omega arith) in
              rw sends (record {
                serving = w;
                room = ground (arith, v.room, open_window, next);
                low = omega (arith, v.low, next, kept);
                near = ground (arith, v.room, v.high, open_window, next, kept.0, kept.2);
                high = omega (arith, v.high, kept);
              }))
      ]
