-- ===== src/Server/Heard.antt =====
-- server.c: polls that time out or report the socket, and the replies that are taken then.
use cpe464_program.Common.{
  All, Ends, Ends-and_then, Ends-mono, Ensures, Ensures→Ends, List, Option, [], ap, arith, length,
  none, refl, some, subst, suc, sym, ℕ, ◌∙◌, ◌∷◌, ◌≡◌, ◌≤◌, ◌⊎◌,
}
use cpe464_program.Net.{Arrival, Net, poll, poll_next, safe_recvfrom}
use cpe464_program.Net.Laws.{IsReceived, safe_recvfrom_lem}
use cpe464_program.Packet.{max_pdu}
use cpe464_program.Poll.{Answer, PollSet, poll_call}
use cpe464_program.Server.{Server, on_net, process_packet, process_rr_srej_eof}
use cpe464_program.Server.Fuel.{process_packet-Leaves}

-- An answer of the kernel of which `pollCall` makes a time-out, or the socket.
abbrev pub IsOurs : ℕ → PollSet → Answer → Type 0
IsOurs socket_num p a =
    Ensures (λ ready. (ready ≡ none) ⊎ (ready ≡ some socket_num)) (poll_call p a)

-- All of the answers to come are.
abbrev pub IsHeard : ℕ → Server → Type 0
IsHeard socket_num s = All (IsOurs socket_num s.net.poll_set) s.net.answers

-- What decides how the loops go on, without the window.
abbrev pub Outlook : Type 0
Outlook = (PollSet × List Answer) × List ℕ

abbrev pub outlook : Server → Outlook
outlook s = ((s.net.poll_set, s.net.answers), s.export_file)

pub IsHeard-same :
    (socket_num : ℕ) (s t : Server)
    → outlook t ≡ outlook s
    → IsHeard socket_num s
    → IsHeard socket_num t
IsHeard-same socket_num s t e h =
    subst (λ (o : Outlook). All (IsOurs socket_num o.0.0) o.0.1) (sym e) h

-- From `s` to `t`, no more packets are to come and no more of the file is left than before.
pub record IsOnward (socket_num : ℕ) (s t : Server) : Type 0 where
  pub heard : IsHeard socket_num t
  pub arrivals : length t.net.arrivals ≤ length s.net.arrivals
  pub content : length t.export_file ≤ length s.export_file

pub IsOnward-trans :
    (socket_num : ℕ) (s t u : Server)
    → IsOnward socket_num s t
    → IsOnward socket_num t u
    → IsOnward socket_num s u
IsOnward-trans socket_num s t u h k = record {
  heard = k.heard;
  arrivals = omega (arith, h.arrivals, k.arrivals);
  content = omega (arith, h.content, k.content);
}

pub IsOnward-same :
    (socket_num : ℕ) (s t : Server)
    → IsHeard socket_num s
    → outlook t ≡ outlook s
    → t.net.arrivals ≡ s.net.arrivals
    → IsOnward socket_num s t
IsOnward-same socket_num s t h e a = record {
  heard = IsHeard-same socket_num s t e h;
  arrivals = omega (arith, ap length a);
  content = omega (arith, ap (λ (o : Outlook). length o.1) e);
}

-- After a poll.
abbrev pub IsPolledOurs : ℕ → Server → Option ℕ × Server → Type 0
IsPolledOurs socket_num s r =
    ((r.0 ≡ none) ⊎ (r.0 ≡ some socket_num))
    × (IsHeard socket_num r.1)
    × (r.1.net.arrivals ≡ s.net.arrivals)
    × (r.1.export_file ≡ s.export_file)

pub poll-IsPolledOurs :
    (socket_num : ℕ) (s : Server)
    → IsHeard socket_num s
    → Ends (IsPolledOurs socket_num s) (on_net poll s)
unfolding poll
poll-IsPolledOurs socket_num s h = go s.net.answers h
  where
    go :
        (l : List Answer)
        → All (IsOurs socket_num s.net.poll_set) l
        → Ends (IsPolledOurs socket_num s) (on_net (poll_next l) s)
    go [] k = tt
    go (a ∷ rest) k =
        Ends-and_then (λ r. IsPolledOurs socket_num s (r.0, record s { net = r.1 }))
          (IsPolledOurs socket_num s) (poll_next (a ∷ rest) s.net) _
          (Ends-and_then (λ ready. (ready ≡ none) ⊎ (ready ≡ some socket_num))
            (λ r. IsPolledOurs socket_num s (r.0, record s { net = r.1 }))
            (poll_call s.net.poll_set a) _
            (Ensures→Ends (λ ready. (ready ≡ none) ⊎ (ready ≡ some socket_num))
              (poll_call s.net.poll_set a) k.0)
            (λ ready o. (o, k.1, refl, refl)))
          (λ r o. o)

-- A reply is taken.
abbrev pub IsTaken : Server → Server → Type 0
IsTaken s t = (length s.net.arrivals ≡ suc (length t.net.arrivals)) × (outlook t ≡ outlook s)

pub process_rr_srej_eof-IsTaken :
    (stack : ℕ → ℕ) (s : Server) → Ends (λ r. IsTaken s r.1) (process_rr_srej_eof stack s)
unfolding process_rr_srej_eof
process_rr_srej_eof-IsTaken stack s =
    Ends-and_then (λ r. IsTaken s r.1) (λ r. IsTaken s r.1) (on_net (safe_recvfrom max_pdu) s) _
      (Ends-and_then (IsReceived max_pdu s.net) (λ r. IsTaken s r.1) (safe_recvfrom max_pdu s.net) _
        (Ensures→Ends (IsReceived max_pdu s.net) (safe_recvfrom max_pdu s.net)
          (safe_recvfrom_lem max_pdu s.net))
        (λ r (bytes, rest, arrived, cut, after). (
          ap length arrived ∙ ap (λ (n : Net). suc (length n.arrivals)) (sym after),
          ap (λ (n : Net). ((n.poll_set, n.answers), s.export_file)) after,
        )))
      (λ r h.
        Ends-mono (λ q. (outlook q.1, q.1.net.arrivals) ≡ (outlook r.1, r.1.net.arrivals))
          (λ q. IsTaken s q.1) (process_packet stack r.0 r.1)
          (λ q e. (
            h.0 ∙ ap (λ (p : Outlook × List Arrival). suc (length p.1)) (sym e),
            ap (λ (p : Outlook × List Arrival). p.0) e ∙ h.1,
          ))
          (process_packet-Leaves (λ s. (outlook s, s.net.arrivals)) (λ s sent window. refl) stack
            r.0 r.1))

pub IsOnward-polled :
    (socket_num : ℕ) (s : Server) (r : Option ℕ × Server)
    → IsPolledOurs socket_num s r
    → IsOnward socket_num s r.1
IsOnward-polled socket_num s r (outcome, heard, same, unread) = record {
  heard = heard;
  arrivals = omega (arith, ap length same);
  content = omega (arith, ap length unread);
}

pub IsOnward-taken :
    (socket_num : ℕ) (s t : Server) → IsHeard socket_num s → IsTaken s t → IsOnward socket_num s t
IsOnward-taken socket_num s t h (fewer, same) = record {
  heard = IsHeard-same socket_num s t same h;
  arrivals = omega (arith, fewer);
  content = omega (arith, ap (λ (o : Outlook). length o.1) same);
}
