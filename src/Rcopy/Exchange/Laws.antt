-- ===== src/Rcopy/Exchange/Laws.antt =====
-- rcopy.c: how often the client asks for the file.
use cpe464_program.Common.{
  Bool, Ensures, Ensures-and_then, Ensures-mono, [], ap, append-nil, append_assoc, arith, false,
  if◌then◌else◌, inl, inr, refl, replicate, return, subst, suc, sym, true, zero, ℕ, ◌++◌, ◌<◌, ◌∙◌,
  ◌∷◌, ◌≡◌, ◌≤◌, ◌⊎◌,
}
use cpe464_program.Net.{poll, safe_sendto}
use cpe464_program.Net.Laws.{IsPolled, poll_lem}
use cpe464_program.Packet.{filename_packet}
use cpe464_program.Poll.{poll_set_size, setup_poll_set}
use cpe464_program.Poll.Laws.{add_to_poll_set_lem, setup_poll_set-IsWellSized}
use cpe464_program.Rcopy.{Rcopy}
use cpe464_program.Rcopy.Delivery.Transfer.{Ensures-on_net}
use cpe464_program.Rcopy.Exchange.{
  Args, RcopyState, done, exchange_loop, filename_exchange, on_response, receive_data,
  send_filename,
}
use cpe464_program.Rcopy.Exchange.Response.{HaveNuls, IsResponse, on_response-IsResponse}

-- From `s` on the client has sent the request at most `left` times: all of them if it gives up, and at least
-- one if it goes on.
abbrev Asked : Args → ℕ → Rcopy → RcopyState × Rcopy → Type 0
Asked a left s r =
    (k : ℕ) × (k ≤ left)
    × (r.1.net.sent
        ≡ s.net.sent ++ replicate k (filename_packet a.window_size a.buffer_size a.from_file))
    × ((r.0 ≡ done) × (k ≡ left) ⊎ (r.0 ≡ receive_data) × (0 < k))

-- After one request, the client goes on to receive or asks again.
next_attempt :
    (left : ℕ) (array : ℕ → ℕ) (sock_num : ℕ) (a : Args) (s : Rcopy) (good : Bool) (t : Rcopy)
    → t.net.sent ≡ s.net.sent ++ (filename_packet a.window_size a.buffer_size a.from_file ∷ [])
    → Ensures (Asked a left t) (exchange_loop left array sock_num a t)
    → Ensures
        (Asked a (suc left) s)
        ((if good then return receive_data else exchange_loop left array sock_num a) t)
next_attempt left array sock_num a s true t e again = (1, omega arith, e, inr (refl, omega arith))
next_attempt left array sock_num a s false t e again =
    let asked = filename_packet a.window_size a.buffer_size a.from_file in
    Ensures-mono (Asked a left t) (Asked a (suc left) s) (exchange_loop left array sock_num a t)
      (λ r (k, few, sent, outcome). (
        suc k,
        omega arith,
        sent
            ∙ ap (λ l. l ++ replicate k asked) e
            ∙ append_assoc s.net.sent (asked ∷ []) (replicate k asked),
        elim outcome [
          | inl (gave_up, all) ↦ inl (gave_up, ap suc all)
          | inr (accepted, some_sent) ↦ inr (accepted, omega arith)
        ],
      ))
      again

exchange_loop_lem :
    (left : ℕ) (array : ℕ → ℕ) (sock_num : ℕ) (a : Args) (s : Rcopy)
    → HaveNuls left s.net.arrivals
    → Ensures (Asked a left s) (exchange_loop left array sock_num a s)
unfolding exchange_loop send_filename safe_sendto
exchange_loop_lem zero array sock_num a s nuls =
    (0, omega arith, sym (append-nil s.net.sent), inl (refl, refl))
exchange_loop_lem (suc left) array sock_num a s nuls =
    Ensures-on_net (λ r. IsPolled asked.net r.1) (Asked a (suc left) s) poll asked _
      (poll_lem asked.net)
      (λ ready n p.
        let polled = record asked { net = n } in
        Ensures-and_then (λ r. IsResponse left polled r.1) (Asked a (suc left) s)
          (on_response array sock_num ready polled) _
          (on_response-IsResponse left array sock_num ready polled
            (subst (HaveNuls (suc left)) (sym p.same_arrivals) nuls))
          (λ r e.
            next_attempt left r.0.1 sock_num a s r.0.0 r.1 (e.sent ∙ p.same_sent)
              (exchange_loop_lem left r.0.1 sock_num a r.1 e.nuls)))
  where
    asked : Rcopy
    asked = record s {
      net = record s.net {
        sent = s.net.sent ++ (filename_packet a.window_size a.buffer_size a.from_file ∷ []);
      };
    }

-- If the poll set has been used for no descriptor past its first ten, and each datagram among the
-- next ten arrivals has a NUL among its first 1407 bytes, filename_exchange does nothing undefined
-- and ends; if it returns, it has sent the request at most ten times and nothing else: ten times if
-- it gives up, and at least once if it goes on to receive.
pub filename_exchange_lem :
    (stack : ℕ → ℕ) (sock_num : ℕ) (a : Args) (s : Rcopy)
    → s.net.poll_set.max_descriptor ≤ poll_set_size
    → HaveNuls 10 s.net.arrivals
    → Ensures
        (λ r.
          (k : ℕ) × (k ≤ 10)
          × (r.1.net.sent
              ≡ s.net.sent ++ replicate k (filename_packet a.window_size a.buffer_size a.from_file))
          × (((r.0 ≡ done) × (k ≡ 10)) ⊎ ((r.0 ≡ receive_data) × (0 < k))))
        (filename_exchange stack sock_num a s)
unfolding filename_exchange
filename_exchange_lem stack sock_num a s few nuls =
    let ready = setup_poll_set s.net.poll_set in
    let (q, watched, added) =
      add_to_poll_set_lem sock_num ready (setup_poll_set-IsWellSized s.net.poll_set few) in
    rw watched (
      exchange_loop_lem 10 stack sock_num a (record s { net = record s.net { poll_set = q } }) nuls)
