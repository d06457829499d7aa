-- ===== src/Networks/Laws.antt =====
-- networks.c: where a set-up ends the process, and that a client reaches the port that a server prints.
use cpe464_program.Common.{
  Bool, Ensures, List, M, Option, [], append_assoc, arith, exit, length, none, ok, refl, return,
  some, ℕ, ◌%◌, ◌++◌, ◌<◌, ◌>>=◌, ◌^◌, ◌∷◌, ◌≡◌,
}
use cpe464_program.Lookup.{gethostbyname6}
use cpe464_program.Networks.{
  listen_backlog, setup_udp_client_to_server, tcp_client_setup, tcp_server_setup, udp_server_setup,
}
use cpe464_program.Poll.{exit_minus_1}
use cpe464_program.Socket.{
  Call, Grant, Kernel, af_inet6, any_address, bind_to, close, get_sock_name, htons, listen_on,
  ntohs, sock_stream, socket,
}

-- The calls that do not fail, and then one that does.
abbrev pub fails_after : List Grant → List (Option Grant) → List (Option Grant)
fails_after [] rest = none ∷ rest
fails_after (g ∷ granted) rest = some g ∷ fails_after granted rest

-- Only the call of `socket` in `tcpServerSetup` ends the process with 1.
abbrev pub status_after : List Grant → ℕ
status_after [] = 1
status_after (g ∷ granted) = exit_minus_1

-- A call beyond the list of those that a set-up makes is no call of it.
tcp_server_setup_exits :
    (port : ℕ) (granted : List Grant) (rest : List (Option Grant)) (k : Kernel)
    → length granted < 4
    → k.replies ≡ fails_after granted rest
    → tcp_server_setup port k ≡ exit (status_after granted)
unfolding tcp_server_setup
tcp_server_setup_exits port [] rest k few e = rw e refl
tcp_server_setup_exits port (s ∷ []) rest k few e = rw e refl
tcp_server_setup_exits port (s ∷ b ∷ []) rest k few e = rw e refl
tcp_server_setup_exits port (s ∷ b ∷ n ∷ []) rest k few e = rw e refl
tcp_server_setup_exits port (s ∷ b ∷ n ∷ l ∷ more) rest k few e = absurd (omega arith)

udp_server_setup_exits :
    (port : ℕ) (granted : List Grant) (rest : List (Option Grant)) (k : Kernel)
    → length granted < 2
    → k.replies ≡ fails_after granted rest
    → udp_server_setup port k ≡ exit exit_minus_1
unfolding udp_server_setup
udp_server_setup_exits port [] rest k few e = rw e refl
udp_server_setup_exits port (s ∷ []) rest k few e = rw e refl
udp_server_setup_exits port (s ∷ b ∷ more) rest k few e = absurd (omega arith)

module _ (inet_ntop : ℕ → List ℕ → List ℕ) where
  tcp_client_setup_exits :
      (host port : List ℕ) (debug_flag : Bool) (granted : List Grant) (rest : List (Option Grant))
      (k : Kernel)
      → length granted < 3
      → k.replies ≡ fails_after granted rest
      → tcp_client_setup inet_ntop host port debug_flag k ≡ exit exit_minus_1
  unfolding tcp_client_setup gethostbyname6
  tcp_client_setup_exits host port debug_flag [] rest k few e = rw e refl
  tcp_client_setup_exits host port debug_flag (s ∷ []) rest k few e = rw e refl
  tcp_client_setup_exits host port debug_flag (s ∷ a ∷ []) rest k few e = rw e refl
  tcp_client_setup_exits host port debug_flag (s ∷ a ∷ c ∷ more) rest k few e = absurd (omega arith)

  setup_udp_client_to_server_exits :
      (host : List ℕ) (port : ℕ) (granted : List Grant) (rest : List (Option Grant)) (k : Kernel)
      → length granted < 2
      → k.replies ≡ fails_after granted rest
      → setup_udp_client_to_server inet_ntop host port k ≡ exit exit_minus_1
  unfolding setup_udp_client_to_server gethostbyname6
  setup_udp_client_to_server_exits host port [] rest k few e = rw e refl
  setup_udp_client_to_server_exits host port (s ∷ []) rest k few e = rw e refl
  setup_udp_client_to_server_exits host port (s ∷ a ∷ more) rest k few e = absurd (omega arith)

-- The set-ups of sockets that are not accepted from another one.
pub data SetUp : Type 0 where
  tcp_server : ℕ → SetUp
  udp_server : ℕ → SetUp
  tcp_client : List ℕ → List ℕ → Bool → SetUp
  udp_client : List ℕ → ℕ → SetUp

abbrev pub set_up : (ℕ → List ℕ → List ℕ) → SetUp → M Kernel ℕ
set_up inet_ntop (tcp_server port) = tcp_server_setup port
set_up inet_ntop (udp_server port) = udp_server_setup port
set_up inet_ntop (tcp_client host port debug_flag) = tcp_client_setup inet_ntop host port debug_flag
set_up inet_ntop (udp_client host port) =
    setup_udp_client_to_server inet_ntop host port >>= λ r. return r.0

-- How many calls a set-up makes whose failure it looks at.
abbrev pub tested_calls : SetUp → ℕ
tested_calls (tcp_server port) = 4
tested_calls (udp_server port) = 2
tested_calls (tcp_client host port debug_flag) = 3
tested_calls (udp_client host port) = 2

abbrev pub exit_status : SetUp → List Grant → ℕ
exit_status (tcp_server port) granted = status_after granted
exit_status other granted = exit_minus_1

-- If any of the calls whose failure a set-up of networks.c looks at fails, after those before it
-- have succeeded, the set-up ends the process: with 1 where `socket` fails in tcpServerSetup, and
-- with -1 everywhere else. These are four calls of tcpServerSetup, three of tcpClientSetup, and two
-- each of udpServerSetup and setupUdpClientToServer.
pub set_up_exits :
    (inet_ntop : ℕ → List ℕ → List ℕ) (u : SetUp) (granted : List Grant)
    (rest : List (Option Grant)) (k : Kernel)
    → length granted < tested_calls u
    → k.replies ≡ fails_after granted rest
    → set_up inet_ntop u k ≡ exit (exit_status u granted)
set_up_exits inet_ntop (tcp_server port) granted rest k few e =
    tcp_server_setup_exits port granted rest k few e
set_up_exits inet_ntop (udp_server port) granted rest k few e =
    udp_server_setup_exits port granted rest k few e
set_up_exits inet_ntop (tcp_client host port debug_flag) granted rest k few e =
    tcp_client_setup_exits inet_ntop host port debug_flag granted rest k few e
set_up_exits inet_ntop (udp_client host port) granted rest k few e =
    rw (setup_udp_client_to_server_exits inet_ntop host port granted rest k few e) refl

pub htons-ntohs : (n : ℕ) → n < 2 ^ 16 → htons (ntohs n) ≡ n
unfolding htons ntohs
htons-ntohs n h = omega arith

pub ntohs-htons : (n : ℕ) → ntohs (htons n) ≡ n % 2 ^ 16
unfolding htons ntohs
ntohs-htons n = omega arith

pub ntohs-lt : (n : ℕ) → ntohs n < 2 ^ 16
unfolding ntohs
ntohs-lt n = omega arith

-- The replies of a TCP server's set-up that succeeds, and the state that it leaves.
pub record ServerGrants : Type 0 where
  pub opened : Grant
  pub bound : Grant
  pub named : Grant
  pub listening : Grant

abbrev pub server_replies : ServerGrants → List (Option Grant) → List (Option Grant)
server_replies g rest = some g.opened ∷ some g.bound ∷ some g.named ∷ some g.listening ∷ rest

abbrev pub server_calls : ServerGrants → ℕ → List Call
server_calls g port =
    socket sock_stream
    ∷ bind_to g.opened.value (record { family = af_inet6; port = htons port; addr = any_address })
    ∷ get_sock_name g.opened.value
    ∷ listen_on g.opened.value listen_backlog
    ∷ []

-- The state that it leaves.
abbrev pub listens : ServerGrants → ℕ → ℕ → List (Option Grant) → Kernel → Kernel
listens g port shown rest k = record k {
  replies = rest;
  calls = k.calls ++ server_calls g port;
  printed = k.printed ++ (([], shown) ∷ []);
}

pub tcp_server_setup_lem :
    (port : ℕ) (g : ServerGrants) (rest : List (Option Grant)) (k : Kernel)
    → k.replies ≡ server_replies g rest
    → tcp_server_setup port k
      ≡ ok (g.opened.value, listens g port (ntohs g.named.address.port) rest k)
unfolding tcp_server_setup
tcp_server_setup_lem port g rest k e = rw e (simp (append_assoc))

-- Whatever the kernel does, the call does nothing undefined.
pub setup_udp_client_to_server_safe :
    (inet_ntop : ℕ → List ℕ → List ℕ) (host : List ℕ) (port : ℕ) (k : Kernel)
    → Ensures (λ r. Unit {0}) (setup_udp_client_to_server inet_ntop host port k)
unfolding setup_udp_client_to_server gethostbyname6
setup_udp_client_to_server_safe inet_ntop host port k = go k.replies refl
  where
    go :
        (replies : List (Option Grant))
        → k.replies ≡ replies
        → Ensures (λ r. Unit {0}) (setup_udp_client_to_server inet_ntop host port k)
    go [] e = rw e tt
    go (none ∷ rest) e = rw e tt
    go (some s ∷ []) e = rw e tt
    go (some s ∷ none ∷ rest) e = rw e tt
    go (some s ∷ some a ∷ rest) e = rw e tt

pub close_safe : (socket_num : ℕ) (k : Kernel) → Ensures (λ r. Unit {0}) (close socket_num k)
unfolding close
close_safe socket_num k = go k.replies refl
  where
    go :
        (replies : List (Option Grant))
        → k.replies ≡ replies
        → Ensures (λ r. Unit {0}) (close socket_num k)
    go [] e = rw e tt
    go (reply ∷ rest) e = rw e tt
