-- ===== src/Socket.antt =====
-- The socket calls of networks.c, gethostbyname.c and the two TCP examples. What the kernel and the
-- resolver answer is a script, one reply for each call; the calls are recorded. A little-endian host.
use cpe464_program.Common.{
  Bool, List, M, Option, [], blocked, exit, false, none, ok, replicate, return, some, take, true, ℕ,
  ◌%◌, ◌*◌, ◌++◌, ◌+◌, ◌/◌, ◌>>=◌, ◌∷◌,
}
use cpe464_program.Poll.{exit_minus_1}

pub record SockAddr : Type 0 where
  pub family : ℕ
  pub port : ℕ
  pub addr : List ℕ

abbrev pub af_inet : ℕ
af_inet = 2

abbrev pub af_inet6 : ℕ
af_inet6 = 10

abbrev pub sock_stream : ℕ
sock_stream = 1

abbrev pub sock_dgram : ℕ
sock_dgram = 2

-- `in6addr_any`, and what `memset` leaves in an address.
abbrev pub any_address : List ℕ
any_address = replicate 16 0

-- `sin6_port` is a 16-bit pattern with the high byte first in memory.
unfoldable pub htons : ℕ → ℕ
htons n = n % 256 * 256 + n / 256 % 256

unfoldable pub ntohs : ℕ → ℕ
ntohs n = n % 256 * 256 + n / 256 % 256

-- `socket` is given the type of the socket, `getaddrinfo` the host with the flags and the family of the
-- hints.
pub data Call : Type 0 where
  socket : ℕ → Call
  bind_to : ℕ → SockAddr → Call
  get_sock_name : ℕ → Call
  listen_on : ℕ → ℕ → Call
  accept_on : ℕ → Call
  connect_to : ℕ → SockAddr → Call
  get_addr_info : List ℕ → ℕ → ℕ → Call
  send_on : ℕ → List ℕ → Call
  recv_on : ℕ → ℕ → Call
  close_of : ℕ → Call

-- What a call that does not fail gives: the value returned, the address and the bytes filled in.
pub record Grant : Type 0 where
  pub value : ℕ
  pub address : SockAddr
  pub bytes : List ℕ

-- `ip_address` is the static array that `getIPAddress46` returns. Of what is printed, the texts and
-- the numbers are kept.
pub record Kernel : Type 0 where
  pub replies : List (Option Grant)
  pub calls : List Call
  pub printed : List (List ℕ × ℕ)
  pub ip_address : List ℕ

pub ask_next : Call → List (Option Grant) → M Kernel (Option Grant)
ask_next call [] k = blocked
ask_next call (reply ∷ rest) k =
    ok (reply, record k { replies = rest; calls = k.calls ++ (call ∷ []) })

unfoldable pub ask : Call → M Kernel (Option Grant)
unfolding ask_next
ask call k = ask_next call k.replies k

-- The test that follows a call: a negative value ends the process with this status.
abbrev pub or_exit : ℕ → Option Grant → M Kernel Grant
or_exit status none k = exit status
or_exit status (some g) k = ok (g, k)

abbrev pub print : List ℕ → ℕ → M Kernel (Unit {0})
print text number k = ok (tt, record k { printed = k.printed ++ ((text, number) ∷ []) })

abbrev pub when : Bool → M Kernel (Unit {0}) → M Kernel (Unit {0})
when true m = m
when false m = return tt

-- `safeSend`, in safeUtil.c.
unfoldable pub safe_send : ℕ → List ℕ → M Kernel ℕ
unfolding ask
safe_send socket_num bytes = do
  g ← ask (send_on socket_num bytes) >>= or_exit exit_minus_1
  return g.value

-- `safeRecv`: at most `len` bytes, none when the other side has closed.
unfoldable pub safe_recv : ℕ → ℕ → M Kernel (List ℕ)
unfolding ask
safe_recv socket_num len = do
  g ← ask (recv_on socket_num len) >>= or_exit exit_minus_1
  return (take len g.bytes)

-- `close`, whose result no caller reads.
unfoldable pub close : ℕ → M Kernel (Unit {0})
unfolding ask
close socket_num = do _ ← ask (close_of socket_num); return tt
