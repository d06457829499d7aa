-- ===== src/Rcopy/Exchange/Frame.antt =====
-- rcopy.c: what `filename_exchange` leaves alone.
use cpe464_program.Common.{
  Bool, Ensures, Ensures-and_then, Ensures-mono, [], arith, false, if◌then◌else◌, length, refl,
  return, subst, suc, sym, true, zero, ℕ, ◌++◌, ◌∷◌, ◌≡◌, ◌≤◌,
}
use cpe464_program.Net.{poll, safe_sendto}
use cpe464_program.Net.Laws.{IsPolled, poll_lem}
use cpe464_program.Packet.{filename_packet}
use cpe464_program.Poll.{poll_set_size, setup_poll_set}
use cpe464_program.Poll.Laws.{add_to_poll_set_lem, setup_poll_set-IsWellSized}
use cpe464_program.Rcopy.{Rcopy}
use cpe464_program.Rcopy.Delivery.Transfer.{Ensures-on_net}
use cpe464_program.Rcopy.Exchange.{
  Args, exchange_loop, filename_exchange, on_response, receive_data, send_filename,
}
use cpe464_program.Rcopy.Exchange.Response.{HaveNuls, IsResponse, on_response-IsResponse}

-- Only the socket was used, and no more polls are left than before.
abbrev pub OnlyNet : Rcopy → Rcopy → Type 0
OnlyNet s t = (t ≡ record s { net = t.net }) × (length t.net.answers ≤ length s.net.answers)

OnlyNet-trans : (s t u : Rcopy) → OnlyNet s t → OnlyNet t u → OnlyNet s u
OnlyNet-trans s t u h k = (ground (arith, h.0, k.0), omega (arith, h.1, k.1))

next_attempt-OnlyNet :
    (left : ℕ) (array : ℕ → ℕ) (sock_num : ℕ) (a : Args) (s : Rcopy) (good : Bool) (t : Rcopy)
    → OnlyNet s t
    → Ensures (λ r. OnlyNet t r.1) (exchange_loop left array sock_num a t)
    → Ensures
        (λ r. OnlyNet s r.1)
        ((if good then return receive_data else exchange_loop left array sock_num a) t)
next_attempt-OnlyNet left array sock_num a s true t h again = h
next_attempt-OnlyNet left array sock_num a s false t h again =
    Ensures-mono (λ r. OnlyNet t r.1) (λ r. OnlyNet s r.1) (exchange_loop left array sock_num a t)
      (λ r k. OnlyNet-trans s t r.1 h k) again

exchange_loop-OnlyNet :
    (left : ℕ) (array : ℕ → ℕ) (sock_num : ℕ) (a : Args) (s : Rcopy)
    → HaveNuls left s.net.arrivals
    → Ensures (λ r. OnlyNet s r.1) (exchange_loop left array sock_num a s)
unfolding exchange_loop send_filename safe_sendto
exchange_loop-OnlyNet zero array sock_num a s nuls = (refl, omega arith)
exchange_loop-OnlyNet (suc left) array sock_num a s nuls =
    Ensures-on_net (λ r. IsPolled asked.net r.1) (λ r. OnlyNet s r.1) poll asked _
      (poll_lem asked.net)
      (λ ready n p.
        let polled = record asked { net = n } in
        Ensures-and_then (λ r. IsResponse left polled r.1) (λ r. OnlyNet s r.1)
          (on_response array sock_num ready polled) _
          (on_response-IsResponse left array sock_num ready polled
            (subst (HaveNuls (suc left)) (sym p.same_arrivals) nuls))
          (λ r e.
            next_attempt-OnlyNet left r.0.1 sock_num a s r.0.0 r.1
              (OnlyNet-trans s polled r.1 (refl, omega (arith, p.one_answer)) (e.only, e.answers))
              (exchange_loop-OnlyNet left r.0.1 sock_num a r.1 e.nuls)))
  where
    asked : Rcopy
    asked = record s {
      net = record s.net {
        sent = s.net.sent ++ (filename_packet a.window_size a.buffer_size a.from_file ∷ []);
      };
    }

pub filename_exchange-OnlyNet :
    (stack : ℕ → ℕ) (sock_num : ℕ) (a : Args) (s : Rcopy)
    → s.net.poll_set.max_descriptor ≤ poll_set_size
    → HaveNuls 10 s.net.arrivals
    → Ensures (λ r. OnlyNet s r.1) (filename_exchange stack sock_num a s)
unfolding filename_exchange
filename_exchange-OnlyNet stack sock_num a s few nuls =
    let ready = setup_poll_set s.net.poll_set in
    let (q, watched, added) =
      add_to_poll_set_lem sock_num ready (setup_poll_set-IsWellSized s.net.poll_set few) in
    let polled = record s { net = record s.net { poll_set = q } } in
    rw watched (
      Ensures-mono (λ r. OnlyNet polled r.1) (λ r. OnlyNet s r.1)
        (exchange_loop 10 stack sock_num a polled)
        (λ r k. OnlyNet-trans s polled r.1 (refl, omega arith) k)
        (exchange_loop-OnlyNet 10 stack sock_num a polled nuls))
