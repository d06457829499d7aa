-- ===== src/Transfer/Network/Sender.antt =====
-- server.c: what a step of the child does to its window and to what it has sent.
use native.Mathlib.Decide.{ℕ_discrete}
use cpe464_program.Common.{
  All, Bool, Ensures-ok, List, Option, Returns-ok, [], ap, arith, inl, inr, length, ok,
  ok-injective, refl, slt, subst, sym, true, ℕ, ◌++◌, ◌-◌, ◌<◌, ◌>>=◌, ◌∙◌, ◌∷◌, ◌≡◌, ◌≢◌, ◌≤◌, ◌⊎◌,
}
use cpe464_program.Checksum.{in_cksum}
use cpe464_program.Packet.{
  build_packet, byte_at, flag_data, flag_eof, flag_resent_data, flag_resent_timeout, flag_rr,
  load_net32, max_payload_size,
}
use cpe464_program.Rcopy.Delivery.File.{block_of}
use cpe464_program.Server.{Server, process_packet, read_file_to_buffer, resend_packet, send_read}
use cpe464_program.Server.Blocks.{IsServing-net}
use cpe464_program.Server.Blocks.Resend.{resend_packet_lem}
use cpe464_program.Server.Blocks.Send.{send_at_end, send_next}
use cpe464_program.Server.Outstanding.{
  IsAnswered, IsDue, IsWindowed, process_packet-IsAnswered, send_next-IsWindowed,
}
use cpe464_program.Transfer.Network.Moves.{IsMoved, process_packet-IsMoved}

-- A packet of a block below `n`, as it is in the file, and not an EOF.
abbrev pub IsBlock : ℕ → List ℕ → ℕ → List ℕ → Type 0
IsBlock chunk_size file n p =
    (k : ℕ) × (flag : ℕ) × (k < n)
    × (flag < 256)
    × (flag ≢ flag_eof)
    × (p ≡ build_packet k flag (block_of chunk_size file k))

-- A packet below `n`, as it is in the file; only the last one may be an EOF.
abbrev pub IsPart : ℕ → List ℕ → ℕ → List ℕ → Type 0
IsPart chunk_size file n p =
    (k : ℕ) × (flag : ℕ) × (k < n)
    × (flag < 256)
    × (flag ≡ flag_eof → k ≡ n - 1)
    × (p ≡ build_packet k flag (block_of chunk_size file k))

pub IsBlock-IsPart :
    (chunk_size : ℕ) (file : List ℕ) (m n : ℕ) (sent : List (List ℕ))
    → m ≤ n
    → All (IsBlock chunk_size file m) sent
    → All (IsPart chunk_size file n) sent
IsBlock-IsPart chunk_size file m n [] h a = tt
IsBlock-IsPart chunk_size file m n (q ∷ sent) h ((k, flag, below, f, plain, is), a) = (
  (k, flag, omega arith, f, λ e. absurd (plain e), is),
  IsBlock-IsPart chunk_size file m n sent h a,
)

module _ (chunk_size : ℕ) (file : List ℕ) where
  AllBlocks-append :
      (m n : ℕ) (sent : List (List ℕ)) (p : List ℕ)
      → m ≤ n
      → All (IsBlock chunk_size file m) sent
      → IsBlock chunk_size file n p
      → All (IsBlock chunk_size file n) (sent ++ (p ∷ []))
  AllBlocks-append m n [] p h a b = (b, tt)
  AllBlocks-append m n (q ∷ sent) p h ((k, flag, below, f, e, is), a) b =
      ((k, flag, omega arith, f, e, is), AllBlocks-append m n sent p h a b)

module _ (chunk_size : ℕ) (file : List ℕ) (small : chunk_size ≤ max_payload_size) where
  -- The window holds what is outstanding, and all that was sent are blocks of the file.
  pub record IsSending (s : Server) : Type 0 where
    pub windowed : IsWindowed chunk_size file small s
    pub blocks : All (IsBlock chunk_size file s.window.current) s.net.sent

  -- What the client may rely on after a step of the server.
  abbrev pub Onward : Server → Server → Type 0
  Onward s t = IsSending t × (t.window.size ≡ s.window.size) × (s.window.current ≤ t.window.current)

  one_more_block :
      (s t : Server) (k flag : ℕ)
      → IsSending s
      → IsWindowed chunk_size file small t
      → s.window.current ≤ t.window.current
      → k < t.window.current
      → flag < 256
      → flag ≢ flag_eof
      → t.net.sent ≡ s.net.sent ++ (build_packet k flag (block_of chunk_size file k) ∷ [])
      → IsSending t
  one_more_block s t k flag v w up below f e sent = record {
    windowed = w;
    blocks =
        subst (λ l. All (IsBlock chunk_size file t.window.current) l) (sym sent)
          (AllBlocks-append chunk_size file s.window.current t.window.current s.net.sent
            (build_packet k flag (block_of chunk_size file k)) up v.blocks
            (k, flag, below, f, e, refl));
  }

  pub sends_lem :
      (s t : Server) (over : Bool)
      → IsSending s
      → slt s.window.current s.window.highest ≡ true
      → (read_file_to_buffer >>= send_read) s ≡ ok (over, t)
      → Onward s t × (t.window.lowest ≡ s.window.lowest)
  sends_lem s t over v open_window run =
      let w : IsWindowed chunk_size file small t =
        Ensures-ok (λ (r : Bool × Server). IsWindowed chunk_size file small r.1)
          ((read_file_to_buffer >>= send_read) s) (over, t) run
          (send_next-IsWindowed chunk_size file small s v.windowed open_window) in
      elim (ℕ_discrete (length (block_of chunk_size file s.window.current)) 0) [
        | yes none_left ↦
            (let stays : s ≡ t =
                ap (λ (r : Bool × Server). r.1)
                  (ok-injective (
                    sym (
                      send_at_end chunk_size file small s v.windowed.serving v.windowed.room
                        none_left)
                    ∙ run)) in
              subst (λ u. Onward s u × (u.window.lowest ≡ s.window.lowest)) stays
                ((v, refl, omega arith), refl))
        | no more ↦
            (let (u, sent_next, serving, up, kept, sent) =
                send_next chunk_size file small s v.windowed.serving
                  (ground (arith, v.windowed.room, open_window)) (omega arith) in
              let same : u ≡ t =
                ap (λ (r : Bool × Server). r.1) (ok-injective (sym sent_next ∙ run)) in
              let w' = subst (λ x. IsWindowed chunk_size file small x) (sym same) w in
              subst (λ x. Onward s x × (x.window.lowest ≡ s.window.lowest)) same
                (
                  (
                    one_more_block s u s.window.current flag_data v w' (omega (arith, up))
                        (omega (arith, up)) (omega arith) (λ e. omega (arith, e)) sent,
                    kept.2,
                    omega (arith, up),
                  ),
                  kept.0,
                ))
      ]

  pub times_out_lem :
      (s t : Server)
      → IsSending s
      → s.window.lowest < s.window.current
      → resend_packet s.window.lowest flag_resent_timeout s ≡ ok (tt, t)
      → Onward s t × (t.window.lowest ≡ s.window.lowest)
  times_out_lem s t v low run =
      let w = s.window in
      let resent = record s {
        net = record s.net {
          sent =
              s.net.sent
              ++ (build_packet w.lowest flag_resent_timeout (block_of chunk_size file w.lowest)
                  ∷ []);
        };
      } in
      let same : resent ≡ t =
        ap (λ (r : Unit {0} × Server). r.1)
          (ok-injective (
            sym (
              resend_packet_lem chunk_size file small s w.lowest flag_resent_timeout
                v.windowed.serving low v.windowed.near)
            ∙ run)) in
      let still : IsWindowed chunk_size file small resent = record {
        serving = IsServing-net chunk_size file s resent.net v.windowed.serving;
        room = v.windowed.room;
        low = v.windowed.low;
        near = v.windowed.near;
        high = v.windowed.high;
      } in
      subst (λ x. Onward s x × (x.window.lowest ≡ s.window.lowest)) same
        (
          (
            one_more_block s resent w.lowest flag_resent_timeout v still (omega arith) low
                (omega arith) (λ e. omega (arith, e)) refl,
            refl,
            omega arith,
          ),
          refl,
        )

  pub hears_lem :
      (stack : ℕ → ℕ) (p : List ℕ) (s t : Server) (flag : Option ℕ)
      → IsSending s
      → IsDue chunk_size file small stack s p
      → process_packet stack p s ≡ ok (flag, t)
      → Onward s t
        × ((t.window.lowest ≡ s.window.lowest)
            ⊎ (in_cksum p ≡ 0)
              × (byte_at stack p 6 ≡ flag_rr)
              × (t.window.lowest ≡ load_net32 stack p 7))
  hears_lem stack p s t flag v due run =
      let answered =
        Ensures-ok (IsAnswered chunk_size file small s) (process_packet stack p s) (flag, t) run
          (process_packet-IsAnswered chunk_size file small stack p s v.windowed due) in
      let moved =
        Returns-ok (λ (r : Option ℕ × Server). IsMoved stack p s r.1) (process_packet stack p s)
          (flag, t) run (process_packet-IsMoved stack p s) in
      (
        (
          elim answered.1 [
            | inl silent ↦ record {
              windowed = answered.0;
              blocks =
                  subst (λ n. All (IsBlock chunk_size file n) t.net.sent) (sym moved.1)
                    (subst (λ l. All (IsBlock chunk_size file s.window.current) l) (sym silent)
                      v.blocks);
            }
            | inr (k, low, below, sent) ↦
                one_more_block s t k flag_resent_data v answered.0 (omega (arith, moved.1))
                  (omega (arith, moved.1)) (omega arith) (λ e. omega (arith, e)) sent
          ],
          moved.0,
          omega (arith, moved.1),
        ),
        moved.2,
      )
