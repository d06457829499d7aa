-- ===== src/Net.antt =====
-- The process and its socket: safeUtil.c, and the calls of pollLib.c. What the kernel does is a script:
-- its answers to `poll`, and the datagrams that `recvfrom` gives. What is sent is recorded, before the
-- error generator of the library takes it over.
pub mod Laws
use cpe464_program.Common.{List, M, Option, [], and_then, blocked, exit, ok, take, ℕ, ◌++◌, ◌∷◌}
use cpe464_program.Poll.{Answer, PollSet, exit_minus_1, poll_call}

pub data Arrival : Type 0 where
  datagram : List ℕ → Arrival
  recv_error : Arrival

pub record Net : Type 0 where
  pub poll_set : PollSet
  pub answers : List Answer
  pub arrivals : List Arrival
  pub sent : List (List ℕ)

pub poll_next : List Answer → M Net (Option ℕ)
poll_next [] n = blocked
poll_next (a ∷ rest) n = and_then (poll_call n.poll_set a) λ r. ok (r, record n { answers = rest })

-- `pollCall`. How long it waits is up to the script.
unfoldable pub poll : M Net (Option ℕ)
unfolding poll_next
poll n = poll_next n.answers n

pub receive_next : ℕ → List Arrival → M Net (List ℕ)
receive_next len [] n = blocked
receive_next len (datagram bytes ∷ rest) n = ok (take len bytes, record n { arrivals = rest })
receive_next len (recv_error ∷ rest) n = exit exit_minus_1

-- `safeRecvfrom`: a failed call ends the process; a datagram is cut to the length of the buffer.
unfoldable pub safe_recvfrom : ℕ → M Net (List ℕ)
unfolding receive_next
safe_recvfrom len n = receive_next len n.arrivals n

-- `safeSendto`.
unfoldable pub safe_sendto : List ℕ → M Net (Unit {0})
safe_sendto packet n = ok (tt, record n { sent = n.sent ++ (packet ∷ []) })
