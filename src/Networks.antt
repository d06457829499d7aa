-- ===== src/Networks.antt =====
-- networks.c: the sockets of both programs and of the two TCP examples.
pub mod Laws
pub mod Connect
mod Tests
use cpe464_program.Common.{
  Bool, List, M, Option, [], exit, false, get, none, ok, return, some, true, ℕ, ◌>>=◌, ◌>>◌,
}
use cpe464_program.Lookup.{get_ip_address_string6, gethostbyname6}
use cpe464_program.Numbers.{atoi}
use cpe464_program.Poll.{exit_minus_1}
use cpe464_program.Socket.{
  Grant, Kernel, SockAddr, accept_on, af_inet6, any_address, ask, bind_to, connect_to,
  get_sock_name, htons, listen_on, ntohs, or_exit, print, sock_dgram, sock_stream, socket, when,
}

-- `LISTEN_BACKLOG`, in networks.h.
abbrev pub listen_backlog : ℕ
listen_backlog = 10

-- An address that `memset` has cleared, with its family and port.
abbrev pub address_of : ℕ → SockAddr
address_of port = record { family = af_inet6; port = port; addr = any_address }

unfoldable pub tcp_server_setup : ℕ → M Kernel ℕ
unfolding ask
tcp_server_setup server_port = do
  opened ← ask (socket sock_stream) >>= or_exit 1
  _ ← ask (bind_to opened.value (address_of (htons server_port))) >>= or_exit exit_minus_1
  named ← ask (get_sock_name opened.value) >>= or_exit exit_minus_1
  _ ← ask (listen_on opened.value listen_backlog) >>= or_exit exit_minus_1
  print [] (ntohs named.address.port)
  return opened.value

-- A lookup that gives NULL ends the process.
abbrev pub or_exit_null : Bool × SockAddr → M Kernel SockAddr
or_exit_null (false, a) k = exit exit_minus_1
or_exit_null (true, a) k = ok (a, k)

-- `serverAddress` after a call of `getsockname` whose result is not looked at.
abbrev pub named_or : SockAddr → Option Grant → SockAddr
named_or a none = a
named_or a (some g) = g.address

unfoldable pub udp_server_setup : ℕ → M Kernel ℕ
unfolding ask
udp_server_setup server_port = do
  opened ← ask (socket sock_dgram) >>= or_exit exit_minus_1
  let server_address = address_of (htons server_port)
  _ ← ask (bind_to opened.value server_address) >>= or_exit exit_minus_1
  named ← ask (get_sock_name opened.value)
  print [] (ntohs (named_or server_address named).port)
  return opened.value

module _ (inet_ntop : ℕ → List ℕ → List ℕ) where
  unfoldable pub tcp_accept : ℕ → Bool → M Kernel ℕ
  unfolding ask get_ip_address_string6
  tcp_accept main_server_socket debug_flag = do
    accepted ← ask (accept_on main_server_socket) >>= or_exit exit_minus_1
    when debug_flag (
        print (get_ip_address_string6 inet_ntop (some accepted.address.addr))
          (ntohs accepted.address.port))
    return accepted.value

  unfoldable pub tcp_client_setup : List ℕ → List ℕ → Bool → M Kernel ℕ
  unfolding ask get_ip_address_string6
  tcp_client_setup server_name server_port debug_flag = do
    opened ← ask (socket sock_stream) >>= or_exit exit_minus_1
    let cleared = address_of (htons (atoi server_port))
    server_address ← gethostbyname6 cleared server_name (some cleared) >>= or_exit_null
    _ ← ask (connect_to opened.value server_address) >>= or_exit exit_minus_1
    k ← get
    when debug_flag
        (print (get_ip_address_string6 inet_ntop (some k.ip_address)) (atoi server_port))
    return opened.value

  -- The socket and the struct that the caller passes, filled in.
  unfoldable pub setup_udp_client_to_server : List ℕ → ℕ → M Kernel (ℕ × SockAddr)
  unfolding ask
  setup_udp_client_to_server host_name server_port = do
    opened ← ask (socket sock_dgram) >>= or_exit exit_minus_1
    let cleared = address_of (ntohs server_port)
    server_address ← gethostbyname6 cleared host_name (some cleared) >>= or_exit_null
    k ← get
    print (inet_ntop af_inet6 k.ip_address) server_port
    return (opened.value, server_address)
