-- ===== src/Transfer/Network/Moves.antt =====
-- server.c: what a reply does to the counters of the child's window.
use cpe464_program.Common.{
  ==→eq, Bool-cases, List, Returns, Returns-and_then, Returns-trivial, ap, get_elem?, inl, inr,
  or_undefined, refl, ℕ, ◌==◌, ◌≡◌, ◌⊎◌,
}
use cpe464_program.Buffer.{CircularBuffer}
use cpe464_program.Checksum.{in_cksum}
use cpe464_program.Net.{safe_sendto}
use cpe464_program.Packet.{byte_at, flag_resent_data, flag_rr, flag_srej, load_net32}
use cpe464_program.Server.{Server, entry_payload, obey, process_packet, rem_unsigned, resend_packet}

resend_packet_still :
    (k flag : ℕ) (s : Server) → Returns (λ r. r.1.window ≡ s.window) (resend_packet k flag s)
unfolding resend_packet safe_sendto
resend_packet_still k flag s =
    Returns-and_then (λ i. Unit {0}) (λ r. r.1.window ≡ s.window)
      (or_undefined (rem_unsigned k s.window.size)) _
      (Returns-trivial (or_undefined (rem_unsigned k s.window.size)))
      λ i u.
        Returns-and_then (λ e. Unit {0}) (λ r. r.1.window ≡ s.window)
          (or_undefined (get_elem? s.window.entries i)) _
          (Returns-trivial (or_undefined (get_elem? s.window.entries i)))
          λ e v.
            Returns-and_then (λ payload. Unit {0}) (λ r. r.1.window ≡ s.window)
              (entry_payload e e.data_len) _ (Returns-trivial (entry_payload e e.data_len))
              λ payload w. refl

-- The window stays, or the packet is an RR that moves it to its number.
abbrev pub IsMoved : (ℕ → ℕ) → List ℕ → Server → Server → Type 0
IsMoved stack p s t =
    (t.window.size ≡ s.window.size)
    × (t.window.current ≡ s.window.current)
    × ((t.window.lowest ≡ s.window.lowest)
        ⊎ (in_cksum p ≡ 0)
          × (byte_at stack p 6 ≡ flag_rr)
          × (t.window.lowest ≡ load_net32 stack p 7))

unmoved : (stack : ℕ → ℕ) (p : List ℕ) (s t : Server) → t.window ≡ s.window → IsMoved stack p s t
unmoved stack p s t e = (
  ap (λ (w : CircularBuffer). w.size) e,
  ap (λ (w : CircularBuffer). w.current) e,
  inl (ap (λ (w : CircularBuffer). w.lowest) e),
)

pub process_packet-IsMoved :
    (stack : ℕ → ℕ) (p : List ℕ) (s : Server)
    → Returns (λ r. IsMoved stack p s r.1) (process_packet stack p s)
unfolding process_packet obey
process_packet-IsMoved stack p s =
    let n = load_net32 stack p 7 in
    elim (Bool-cases (in_cksum p == 0)) [
      | inr bad ↦ rw bad (
          Returns-and_then (λ r. r.1.window ≡ s.window) (λ r. IsMoved stack p s r.1)
            (resend_packet s.window.lowest flag_resent_data s) _
            (resend_packet_still s.window.lowest flag_resent_data s) λ r e. unmoved stack p s r.1 e)
      | inl good ↦ elim (Bool-cases (byte_at stack p 6 == flag_rr)) [
        | inl moved ↦
            rw (good, moved)
              (
                refl,
                refl,
                inr (==→eq (in_cksum p) 0 good, ==→eq (byte_at stack p 6) flag_rr moved, refl),
              )
        | inr other ↦ elim (Bool-cases (byte_at stack p 6 == flag_srej)) [
          | inl asked ↦
              rw (good, other, asked)
                (Returns-and_then (λ r. r.1.window ≡ s.window) (λ r. IsMoved stack p s r.1)
                  (resend_packet n flag_resent_data s) _ (resend_packet_still n flag_resent_data s)
                  λ r e. unmoved stack p s r.1 e)
          | inr neither ↦ rw (good, other, neither) (unmoved stack p s s refl)
        ]
      ]
    ]
