-- ===== src/Transfer/Network/Closing.antt =====
-- server.c: what the child does while it waits for the acknowledgement of its EOF.
use cpe464_program.Common.{
  ==→eq, ==→ne, All, All-append-one, Bool-cases, Ensures-ok, List, Option, Returns,
  Returns-and_then, Returns-ok, Returns-trivial, [], ap, arith, inl, inr, le-or-lt, ok,
  ok-injective, refl, some, subst, sym, ℕ, ◌%◌, ◌++◌, ◌+◌, ◌-◌, ◌<◌, ◌==◌, ◌^◌, ◌∙◌, ◌∷◌, ◌≡◌, ◌≤◌,
  ◌⊎◌,
}
use cpe464_program.Buffer.{CircularBuffer}
use cpe464_program.Checksum.{in_cksum}
use cpe464_program.Net.{safe_sendto}
use cpe464_program.Packet.{
  build_packet, byte_at, flag_eof, flag_resent_data, flag_rr, flag_srej, load_net32,
  max_payload_size,
}
use cpe464_program.Rcopy.Delivery.File.{block_of}
use cpe464_program.Server.{Server, obey, process_packet, resend_packet, send_eof}
use cpe464_program.Server.Answers.{IsServing-move}
use cpe464_program.Server.Blocks.{IsServing, IsServing-net}
use cpe464_program.Server.Outstanding.{IsAnswered, IsDue, IsWindowed, process_packet-IsAnswered}
use cpe464_program.Server.Window.{process_packet_rr}
use cpe464_program.Transfer.Network.Moves.{IsMoved, process_packet-IsMoved}
use cpe464_program.Transfer.Network.Sender.{IsBlock-IsPart, IsPart, IsSending}

-- A flag that is returned is that of a packet that verifies.
abbrev Reports : (ℕ → ℕ) → List ℕ → Option ℕ × Server → Type 0
Reports stack p r = (f : ℕ) → r.0 ≡ some f → (in_cksum p ≡ 0) × (byte_at stack p 6 ≡ f)

process_packet-Reports :
    (stack : ℕ → ℕ) (p : List ℕ) (s : Server) → Returns (Reports stack p) (process_packet stack p s)
unfolding process_packet
process_packet-Reports stack p s = elim (Bool-cases (in_cksum p == 0)) [
  | inr bad ↦ rw bad (
      Returns-and_then (λ r. Unit {0}) (Reports stack p)
        (resend_packet s.window.lowest flag_resent_data s) _
        (Returns-trivial (resend_packet s.window.lowest flag_resent_data s)) λ r u f e. absurd (cc))
  | inl good ↦ rw good (
      Returns-and_then (λ r. Unit {0}) (Reports stack p)
        (obey (byte_at stack p 6) (load_net32 stack p 7) s) _
        (Returns-trivial (obey (byte_at stack p 6) (load_net32 stack p 7) s))
        λ r u f e. (==→eq (in_cksum p) 0 good, cc))
]

pub process_packet_flag :
    (stack : ℕ → ℕ) (p : List ℕ) (s t : Server) (flag : ℕ)
    → process_packet stack p s ≡ ok (some flag, t)
    → (in_cksum p ≡ 0) × (byte_at stack p 6 ≡ flag)
process_packet_flag stack p s t flag run =
    Returns-ok (Reports stack p) (process_packet stack p s) (some flag, t) run
      (process_packet-Reports stack p s) flag refl

-- An RR of the EOF, which is packet `n`.
abbrev pub IsEofRr : ℕ → (ℕ → ℕ) → List ℕ → Type 0
IsEofRr n stack p =
    (in_cksum p ≡ 0) × (byte_at stack p 6 ≡ flag_rr) × (load_net32 stack p 7 ≡ n + 1)

module _ (chunk_size : ℕ) (file : List ℕ) (small : chunk_size ≤ max_payload_size) (n : ℕ) where
  -- The server stands at the end of the file, block `n`, and all that it sent are blocks below or the EOF.
  pub record IsClosing (s : Server) : Type 0 where
    pub serving : IsServing chunk_size file s
    pub number : s.window.current ≡ n
    pub near : n ≤ s.window.lowest + s.window.size
    pub high : s.window.highest ≤ s.window.lowest + s.window.size
    pub parts : All (IsPart chunk_size file (n + 1)) s.net.sent

  pub IsSending-IsClosing :
      (s : Server) → s.window.current ≡ n → IsSending chunk_size file small s → IsClosing s
  IsSending-IsClosing s number v = record {
    serving = v.windowed.serving;
    number = number;
    near = omega (arith, v.windowed.near);
    high = v.windowed.high;
    parts =
        IsBlock-IsPart chunk_size file s.window.current (n + 1) s.net.sent (omega arith) v.blocks;
  }

  one_more_part :
      (s t : Server) (k flag : ℕ)
      → IsClosing s
      → IsServing chunk_size file t
      → t.window ≡ s.window
      → k < n + 1
      → flag < 256
      → (flag ≡ flag_eof → k ≡ n + 1 - 1)
      → t.net.sent ≡ s.net.sent ++ (build_packet k flag (block_of chunk_size file k) ∷ [])
      → IsClosing t
  one_more_part s t k flag v serving same below f only_last sent =
      let current = ap (λ (w : CircularBuffer). w.current) same in
      let lowest = ap (λ (w : CircularBuffer). w.lowest) same in
      let highest = ap (λ (w : CircularBuffer). w.highest) same in
      let size = ap (λ (w : CircularBuffer). w.size) same in
      record {
        serving = serving;
        number = current ∙ v.number;
        near = omega (arith, v.near);
        high = omega (arith, v.high);
        parts =
            subst (λ l. All (IsPart chunk_size file (n + 1)) l) (sym sent)
              (All-append-one (IsPart chunk_size file (n + 1)) s.net.sent
                (build_packet k flag (block_of chunk_size file k)) v.parts
                (k, flag, below, f, only_last, refl));
      }

  pub send_eof-IsClosing :
      (s t : Server)
      → block_of chunk_size file n ≡ []
      → IsClosing s
      → send_eof s ≡ ok (tt, t)
      → IsClosing t
  unfolding send_eof safe_sendto
  send_eof-IsClosing s t nothing v run =
      let eof_packet = build_packet s.window.current flag_eof [] in
      let sent = record s { net = record s.net { sent = s.net.sent ++ (eof_packet ∷ []) } } in
      let same : sent ≡ t = ap (λ (r : Unit {0} × Server). r.1) (ok-injective run) in
      let packet : eof_packet ≡ build_packet n flag_eof (block_of chunk_size file n) =
        rw (v.number, nothing) in
      subst (λ u. IsClosing u) same
        (one_more_part s sent n flag_eof v (IsServing-net chunk_size file s sent.net v.serving) refl
          (omega arith) (omega arith) (λ e. omega arith) (ap (λ q. s.net.sent ++ (q ∷ [])) packet))

  process_packet-rr-IsClosing :
      (stack : ℕ → ℕ) (p : List ℕ) (s t : Server) (flag : Option ℕ)
      → n + 1 < 2 ^ 31
      → IsClosing s
      → IsEofRr n stack p
      → process_packet stack p s ≡ ok (flag, t)
      → IsClosing t
  process_packet-rr-IsClosing stack p s t flag room v (good, marked, number) run =
      let moved = record s {
        window = record s.window { lowest = n + 1; highest = (n + 1 + s.window.size) % 2 ^ 32 };
      } in
      let same : moved ≡ t =
        ap (λ (r : Option ℕ × Server). r.1)
          (ok-injective (sym (process_packet_rr stack p (n + 1) s good marked number) ∙ run)) in
      subst (λ u. IsClosing u) same
        (record {
          serving =
              IsServing-move chunk_size file s (n + 1) ((n + 1 + s.window.size) % 2 ^ 32) v.serving;
          number = v.number;
          near = omega arith;
          high = omega arith;
          parts = v.parts;
        })

  -- When the EOF was acknowledged, only a packet that changes nothing is due.
  process_packet_acked :
      (stack : ℕ → ℕ) (p : List ℕ) (s t : Server) (flag : Option ℕ)
      → s.window.current < s.window.lowest
      → IsDue chunk_size file small stack s p
      → process_packet stack p s ≡ ok (flag, t)
      → s ≡ t
  unfolding process_packet obey
  process_packet_acked stack p s t flag passed due run = elim (Bool-cases (in_cksum p == 0)) [
    | inr bad ↦ absurd (omega (arith, due.damaged (==→ne (in_cksum p) 0 bad)))
    | inl good ↦
        (let verified = ==→eq (in_cksum p) 0 good in
          elim (Bool-cases (byte_at stack p 6 == flag_rr)) [
            | inl marked ↦
                absurd
                  (omega (arith, due.moves verified (==→eq (byte_at stack p 6) flag_rr marked)))
            | inr other ↦ elim (Bool-cases (byte_at stack p 6 == flag_srej)) [
              | inl asked ↦
                  absurd
                    (omega (arith, due.asks verified (==→eq (byte_at stack p 6) flag_srej asked)))
              | inr neither ↦
                  (let result : process_packet stack p s ≡ ok (some (byte_at stack p 6), s) =
                      rw (good, other, neither) in
                    ap (λ (r : Option ℕ × Server). r.1) (ok-injective (sym result ∙ run)))
            ]
          ])
  ]

  pub process_packet-IsClosing :
      (stack : ℕ → ℕ) (p : List ℕ) (s t : Server) (flag : Option ℕ)
      → n + 1 < 2 ^ 31
      → IsClosing s
      → IsDue chunk_size file small stack s p ⊎ IsEofRr n stack p
      → process_packet stack p s ≡ ok (flag, t)
      → IsClosing t
  process_packet-IsClosing stack p s t flag room v (inr acked) run =
      process_packet-rr-IsClosing stack p s t flag room v acked run
  process_packet-IsClosing stack p s t flag room v (inl due) run =
      elim (le-or-lt s.window.lowest s.window.current) [
        | inr passed ↦
            subst (λ u. IsClosing u) (process_packet_acked stack p s t flag passed due run) v
        | inl low ↦
            (let windowed : IsWindowed chunk_size file small s = record {
              serving = v.serving;
              room = omega (arith, v.number);
              low = low;
              near = omega (arith, v.number, v.near);
              high = v.high;
            } in
              let answered =
                Ensures-ok (IsAnswered chunk_size file small s) (process_packet stack p s) (flag, t)
                  run (process_packet-IsAnswered chunk_size file small stack p s windowed due) in
              let moved =
                Returns-ok (λ (r : Option ℕ × Server). IsMoved stack p s r.1)
                  (process_packet stack p s) (flag, t) run (process_packet-IsMoved stack p s) in
              record {
                serving = answered.0.serving;
                number = moved.1 ∙ v.number;
                near = omega (arith, answered.0.near, moved.1, v.number);
                high = answered.0.high;
                parts = elim answered.1 [
                  | inl silent ↦
                      subst (λ l. All (IsPart chunk_size file (n + 1)) l) (sym silent) v.parts
                  | inr (k, from, below, sent) ↦
                      subst (λ l. All (IsPart chunk_size file (n + 1)) l) (sym sent)
                        (All-append-one (IsPart chunk_size file (n + 1)) s.net.sent
                          (build_packet k flag_resent_data (block_of chunk_size file k)) v.parts
                          (
                            k,
                            flag_resent_data,
                            omega (arith, v.number),
                            omega arith,
                            λ e. absurd (omega (arith, e)),
                            refl,
                          ))
                ];
              })
      ]
