-- ===== src/Rcopy/Exchange.antt =====
-- rcopy.c: asking the server for the file, at most ten times.
pub mod Response
pub mod Laws
pub mod Frame
mod Tests
use cpe464_program.Common.{
  Bool, List, M, Option, Run, and_then, exit, false, fault, if◌then◌else◌, none, ok, return, some,
  suc, true, zero, ℕ, ◌==◌, ◌>>=◌, ◌>>◌,
}
use cpe464_program.Checksum.{in_cksum}
use cpe464_program.Net.{poll, safe_recvfrom, safe_sendto}
use cpe464_program.Packet.{
  byte_at, filename_packet, flag_data, flag_filename_ack, flag_filename_error, max_pdu,
}
use cpe464_program.Poll.{PollSet, add_to_poll_set, setup_poll_set}
use cpe464_program.Rcopy.{Rcopy, on_net}

pub data RcopyState : Type 0 where
  done send_name receive_data file_ok : RcopyState

-- The arguments that are used after `checkArgs`: the name of the file and the two sizes.
pub record Args : Type 0 where
  pub from_file : List ℕ
  pub window_size : ℕ
  pub buffer_size : ℕ

abbrev pub on_poll_set : (PollSet → Run PollSet) → M Rcopy (Unit {0})
on_poll_set f s =
    and_then (f s.net.poll_set) λ p. ok (tt, record s { net = record s.net { poll_set = p } })

unfoldable pub send_filename : Args → M Rcopy (Unit {0})
send_filename a = on_net (safe_sendto (filename_packet a.window_size a.buffer_size a.from_file))

-- `stack` is what the array held behind the bytes that were received.
unfoldable pub process_filename_response : (ℕ → ℕ) → List ℕ → M Rcopy Bool
process_filename_response stack packet =
    let flag = byte_at stack packet 6 in
    if in_cksum packet == 0
    then (if flag == flag_filename_error
        then (λ s. exit 1)
        else if flag == flag_filename_ack
        then return true
        else return (flag == flag_data))
    else return false

-- Whether a NUL stands among the first `n` bytes of an array.
unfoldable pub is_terminated : ℕ → (ℕ → ℕ) → Bool
is_terminated zero array = false
is_terminated (suc n) array =
    let rest = is_terminated n (λ i. array (suc i)) in if array 0 == 0 then true else rest

-- What one attempt does with a packet: the whole array is printed by `%s`, which without a NUL runs past
-- its end. The value is what `process_filename_response` returns, and what the array holds now.
unfoldable pub take_response : (ℕ → ℕ) → List ℕ → M Rcopy (Bool × (ℕ → ℕ))
unfolding is_terminated process_filename_response
take_response array packet =
    if is_terminated max_pdu (byte_at array packet)
    then (do good ← process_filename_response array packet; return (good, byte_at array packet))
    else λ s. fault

-- What one attempt does with the answer of the poll.
unfoldable pub on_response : (ℕ → ℕ) → ℕ → Option ℕ → M Rcopy (Bool × (ℕ → ℕ))
unfolding take_response
on_response array sock_num none = return (false, array)
on_response array sock_num (some fd) =
    if fd == sock_num then on_net (safe_recvfrom max_pdu) >>= take_response array else λ s. exit 1

-- The loop of `filename_exchange`, with `left` attempts left. What was received stays in the array.
unfoldable pub exchange_loop : ℕ → (ℕ → ℕ) → ℕ → Args → M Rcopy RcopyState
exchange_loop zero array sock_num a = return done
exchange_loop (suc left) array sock_num a = do
  send_filename a
  ready ← on_net poll
  response ← on_response array sock_num ready
  if response.0 then return receive_data else exchange_loop left response.1 sock_num a

-- `stack` is what the array holds at first.
unfoldable pub filename_exchange : (ℕ → ℕ) → ℕ → Args → M Rcopy RcopyState
unfolding exchange_loop
filename_exchange stack sock_num a = do
  on_poll_set (λ p. ok (setup_poll_set p))
  on_poll_set (add_to_poll_set sock_num)
  exchange_loop 10 stack sock_num a
