-- ===== src/Server/Fuel.antt =====
-- server.c: what the handlers of replies leave of the input.
use cpe464_program.Common.{
  Bool-cases, Ends, Ends-and_then, Ends-or_undefined, Ensures→Ends, List, M, ap, get_elem?, inl,
  inr, leb, length, or_undefined, refl, subst, suc, ℕ, ◌&&◌, ◌+◌, ◌==◌, ◌>>=◌, ◌≡◌,
}
use cpe464_program.Buffer.{BufferEntry, CircularBuffer}
use cpe464_program.Checksum.{in_cksum}
use cpe464_program.Net.{Net, poll, safe_recvfrom, safe_sendto}
use cpe464_program.Net.Laws.{IsPolled, IsReceived, poll_lem, safe_recvfrom_lem}
use cpe464_program.Packet.{
  byte_at, flag_resent_data, flag_rr, flag_srej, header_size, load_net32, max_pdu,
}
use cpe464_program.Server.{
  Server, entry_payload, obey, on_net, process_packet, process_rr_srej_eof, rem_unsigned,
  resend_packet,
}

-- A piece of the server that ends, and leaves a part of its state as it is.
abbrev pub Leaves {ℓ κ} : {A : Type ℓ} {P : Type κ} → (Server → P) → M Server A → Type κ
Leaves part m = (s : Server) → Ends (λ r. part r.1 ≡ part s) (m s)

-- A part that depends neither on what was sent nor on the window.
abbrev pub IsApart {κ} : {P : Type κ} → (Server → P) → Type κ
IsApart part =
    (s : Server) (sent : List (List ℕ)) (window : CircularBuffer)
    → part (record s { net = record s.net { sent = sent }; window = window }) ≡ part s

pub Leaves-bind {ℓ κ ι} :
    {A : Type ℓ} {B : Type κ} {P : Type ι} (part : Server → P) (m : M Server A) (f : A → M Server B)
    → Leaves part m
    → ((a : A) → Leaves part (f a))
    → Leaves part (m >>= f)
Leaves-bind part m f km kf s =
    Ends-and_then (λ r. part r.1 ≡ part s) (λ r. part r.1 ≡ part s) (m s) (λ r. f r.0 r.1) (km s)
      (λ r e. subst (λ l. Ends (λ q. part q.1 ≡ l) (f r.0 r.1)) e (kf r.0 r.1))

-- A piece that leaves the answers of the script as they are.
abbrev pub Keeps {ℓ} : {A : Type ℓ} → M Server A → Type 0
Keeps m = Leaves (λ s. s.net.answers) m

pub Keeps-bind {ℓ κ} :
    {A : Type ℓ} {B : Type κ} (m : M Server A) (f : A → M Server B)
    → Keeps m
    → ((a : A) → Keeps (f a))
    → Keeps (m >>= f)
Keeps-bind m f km kf = Leaves-bind (λ s. s.net.answers) m f km kf

pub entry_payload-Ends : (e : BufferEntry) (size : ℕ) → Ends (λ p. Unit {0}) (entry_payload e size)
unfolding entry_payload
entry_payload-Ends e size =
    elim (Bool-cases (leb size (length e.bytes) && leb (header_size + size) max_pdu)) [
      | inl fits ↦ rw fits tt
      | inr long ↦ rw long tt
    ]

module _ {κ} {P : Type κ} (part : Server → P) (apart : IsApart part) where
  pub resend_packet-Leaves : (k flag : ℕ) → Leaves part (resend_packet k flag)
  unfolding resend_packet safe_sendto
  resend_packet-Leaves k flag s =
      Ends-and_then (λ i. Unit {0}) (λ r. part r.1 ≡ part s)
        (or_undefined (rem_unsigned k s.window.size)) _
        (Ends-or_undefined (rem_unsigned k s.window.size))
        (λ i u.
          Ends-and_then (λ e. Unit {0}) (λ r. part r.1 ≡ part s)
            (or_undefined (get_elem? s.window.entries i)) _
            (Ends-or_undefined (get_elem? s.window.entries i))
            (λ e u'.
              Ends-and_then (λ p. Unit {0}) (λ r. part r.1 ≡ part s) (entry_payload e e.data_len) _
                (entry_payload-Ends e e.data_len) (λ p u''. apart s _ s.window)))

  obey-Leaves : (flag seq_num : ℕ) → Leaves part (obey flag seq_num)
  unfolding obey
  obey-Leaves flag seq_num s = elim (Bool-cases (flag == flag_rr)) [
    | inl moved ↦ rw moved (apart s s.net.sent _)
    | inr other ↦ elim (Bool-cases (flag == flag_srej)) [
      | inl asked ↦ rw (other, asked) (resend_packet-Leaves seq_num flag_resent_data s)
      | inr neither ↦ rw (other, neither) refl
    ]
  ]

  pub process_packet-Leaves :
      (stack : ℕ → ℕ) (packet : List ℕ) → Leaves part (process_packet stack packet)
  unfolding process_packet
  process_packet-Leaves stack packet s = elim (Bool-cases (in_cksum packet == 0)) [
    | inl good ↦ rw good (
        Leaves-bind part (obey (byte_at stack packet 6) (load_net32 stack packet 7)) _
          (obey-Leaves (byte_at stack packet 6) (load_net32 stack packet 7)) (λ u t. refl) s)
    | inr bad ↦ rw bad (
        Leaves-bind part (resend_packet s.window.lowest flag_resent_data) _
          (resend_packet-Leaves s.window.lowest flag_resent_data) (λ u t. refl) s)
  ]

pub resend_packet-Keeps : (k flag : ℕ) → Keeps (resend_packet k flag)
resend_packet-Keeps k flag =
    resend_packet-Leaves (λ s. s.net.answers) (λ s sent window. refl) k flag

recv-Keeps : (len : ℕ) → Keeps (on_net (safe_recvfrom len))
recv-Keeps len s =
    Ends-and_then (IsReceived len s.net) (λ r. r.1.net.answers ≡ s.net.answers)
      (safe_recvfrom len s.net) _
      (Ensures→Ends (IsReceived len s.net) (safe_recvfrom len s.net) (safe_recvfrom_lem len s.net))
      (λ r h. ap (λ (n : Net). n.answers) h.4)

pub process_rr_srej_eof-Keeps : (stack : ℕ → ℕ) → Keeps (process_rr_srej_eof stack)
unfolding process_rr_srej_eof
process_rr_srej_eof-Keeps stack =
    Keeps-bind (on_net (safe_recvfrom max_pdu)) (process_packet stack) (recv-Keeps max_pdu)
      (process_packet-Leaves (λ s. s.net.answers) (λ s sent window. refl) stack)

pub poll-Ends :
    (s : Server) → Ends (λ r. length s.net.answers ≡ suc (length r.1.net.answers)) (on_net poll s)
poll-Ends s =
    Ends-and_then (λ r. IsPolled s.net r.1)
      (λ r. length s.net.answers ≡ suc (length r.1.net.answers)) (poll s.net) _
      (Ensures→Ends (λ r. IsPolled s.net r.1) (poll s.net) (poll_lem s.net)) (λ r p. p.one_answer)
