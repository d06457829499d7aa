-- ===== src/Transfer/CommandLine.antt =====
-- From the command line of rcopy.c to the socket and the request that server.c serves.
mod Tests
use cpe464_program.Common.{
  List, Option, [], and_then, append_assoc, arith, false, ok, refl, some, write_at, ℕ, ◌++◌, ◌<◌,
  ◌^◌, ◌∙◌, ◌∷◌, ◌≡◌, ◌≤◌,
}
use cpe464_program.Floats.{Floats, is_bad_rate}
use cpe464_program.Lookup.Laws.{IsAddress6, gethostbyname6_finds, lookup_call}
use cpe464_program.Net.{Arrival, Net, datagram, safe_sendto}
use cpe464_program.Networks.{address_of, setup_udp_client_to_server, udp_server_setup}
use cpe464_program.Networks.Laws.{htons-ntohs}
use cpe464_program.Numbers.{atoi, to_int}
use cpe464_program.Packet.{filename_packet}
use cpe464_program.Rcopy.{Rcopy}
use cpe464_program.Rcopy.Exchange.{send_filename}
use cpe464_program.Rcopy.Main.{arg, args_of, check_args, max_buffer, max_port, max_window}
use cpe464_program.Rcopy.Main.Laws.{
  IsShortName, check_args_bounds, check_args_decimal, command_line,
}
use cpe464_program.Server.Request.{process_filename_ack}
use cpe464_program.Server.Request.Fields.{IsName}
use cpe464_program.Server.Request.Laws.{datagrams, expected, process_filename_ack_lem}
use cpe464_program.Socket.{
  Grant, Kernel, SockAddr, af_inet6, any_address, bind_to, get_sock_name, htons, ntohs, sock_dgram,
  socket,
}

-- The grants of a UDP server's set-up and of a UDP client's.
pub record UdpGrants : Type 0 where
  pub bound_socket : Grant
  pub bound : Grant
  pub named : Grant
  pub client_socket : Grant
  pub found : Grant

abbrev pub udp_server_replies : UdpGrants → List (Option Grant) → List (Option Grant)
udp_server_replies g rest = some g.bound_socket ∷ some g.bound ∷ some g.named ∷ rest

abbrev pub udp_client_replies : UdpGrants → List (Option Grant) → List (Option Grant)
udp_client_replies g rest = some g.client_socket ∷ some g.found ∷ rest

abbrev pub udp_address : ℕ → SockAddr
udp_address port = record { family = af_inet6; port = htons port; addr = any_address }

-- The server's socket is bound to this port, and prints that it is bound to `shown`.
abbrev pub udp_listens : UdpGrants → ℕ → ℕ → List (Option Grant) → Kernel → Kernel
udp_listens g port shown rest k = record k {
  replies = rest;
  calls =
      k.calls
      ++ (socket sock_dgram
          ∷ bind_to g.bound_socket.value (udp_address port)
          ∷ get_sock_name g.bound_socket.value
          ∷ []);
  printed = k.printed ++ (([], shown) ∷ []);
}

pub udp_server_setup_lem :
    (port : ℕ) (g : UdpGrants) (rest : List (Option Grant)) (k : Kernel)
    → k.replies ≡ udp_server_replies g rest
    → udp_server_setup port k
      ≡ ok (g.bound_socket.value, udp_listens g port (ntohs g.named.address.port) rest k)
unfolding udp_server_setup
udp_server_setup_lem port g rest k e = rw e (simp (append_assoc))

-- The client's socket, the address that it sends to, and its state.
abbrev pub udp_aims :
    (ℕ → List ℕ → List ℕ) → UdpGrants → List ℕ → ℕ → List (Option Grant) → Kernel → Kernel
udp_aims inet_ntop g host port rest k =
    let found = write_at 0 g.found.address.addr k.ip_address in
    record k {
      replies = rest;
      calls = k.calls ++ (socket sock_dgram ∷ lookup_call host ∷ []);
      printed = k.printed ++ ((inet_ntop af_inet6 found, port) ∷ []);
      ip_address = found;
    }

ntohs-htons_same : (n : ℕ) → ntohs n ≡ htons n
unfolding ntohs htons
ntohs-htons_same n = refl

setup_udp_client_to_server_lem :
    (inet_ntop : ℕ → List ℕ → List ℕ) (host : List ℕ) (port : ℕ) (g : UdpGrants)
    (rest : List (Option Grant)) (k : Kernel)
    → k.replies ≡ udp_client_replies g rest
    → IsAddress6 g.found.address
    → setup_udp_client_to_server inet_ntop host port k
      ≡ ok (
        (
          g.client_socket.value,
          record { family = af_inet6; port = htons port; addr = g.found.address.addr },
        ),
        udp_aims inet_ntop g host port rest k,
      )
unfolding setup_udp_client_to_server
setup_udp_client_to_server_lem inet_ntop host port g rest k e six =
    let cleared = address_of (ntohs port) in
    let opened = record k {
      replies = some g.found ∷ rest;
      calls = k.calls ++ (socket sock_dgram ∷ []);
    } in
    rw e (
      rw (gethostbyname6_finds cleared host cleared opened rest g.found refl six refl)
        (rw (ntohs-htons_same port) (simp (append_assoc))))

-- The arguments of a command line that is accepted, and the port that the server prints.
abbrev pub AreNumbers : ℕ → ℕ → ℕ → Type 0
AreNumbers window buffer port =
    ((0 < window) × (window < max_window))
    × ((0 < buffer) × (buffer ≤ max_buffer))
    × ((0 < port) × (port ≤ max_port))

check_args_accepts :
    (f : Floats) (program from_file to_file rate host : List ℕ) (window buffer port : ℕ)
    → IsShortName from_file
    → IsShortName to_file
    → is_bad_rate f rate ≡ false
    → AreNumbers window buffer port
    → check_args f (command_line program from_file to_file window buffer rate host port) ≡ ok port
check_args_accepts f program from_file to_file rate host window buffer port nf nt good n =
    let w : to_int window ≡ window = omega arith in
    let b : to_int buffer ≡ buffer = omega arith in
    let p : to_int port ≡ port = omega arith in
    check_args_decimal f program from_file to_file rate host window buffer port nf nt good
      (omega arith) (omega arith) (omega arith)
    ∙ rw (w, b, p) (ground arith)

-- If the calls of both set-ups succeed, the port that the kernel gave to the server has 16 bits and
-- is not 0, and rcopy is started with the port that udpServerSetup prints, names of 1 to 99 bytes,
-- sizes in their ranges and an error rate that is accepted, then checkArgs accepts, and
-- setupUdpClientToServer aims at exactly the port that the server is bound to, at the address that
-- was looked up.
pub rcopy_finds_server :
    (f : Floats) (inet_ntop : ℕ → List ℕ → List ℕ) (program from_file to_file rate host : List ℕ)
    (window buffer server_port : ℕ) (g : UdpGrants) (rest_s rest_c : List (Option Grant))
    (server client : Kernel)
    → server.replies ≡ udp_server_replies g rest_s
    → client.replies ≡ udp_client_replies g rest_c
    → IsAddress6 g.found.address
    → g.named.address.port < 2 ^ 16
    → IsShortName from_file
    → IsShortName to_file
    → is_bad_rate f rate ≡ false
    → AreNumbers window buffer (ntohs g.named.address.port)
    → let printed_port = ntohs g.named.address.port in
      (udp_server_setup server_port server
        ≡ ok (g.bound_socket.value, udp_listens g server_port printed_port rest_s server))
      × (and_then
            (check_args f
              (command_line program from_file to_file window buffer rate host printed_port))
            (λ port. setup_udp_client_to_server inet_ntop host port client)
          ≡ ok (
            (
              g.client_socket.value,
              record {
                family = af_inet6;
                port = g.named.address.port;
                addr = g.found.address.addr;
              },
            ),
            udp_aims inet_ntop g host printed_port rest_c client,
          ))
rcopy_finds_server f inet_ntop program from_file to_file rate host window buffer server_port g
      rest_s rest_c server client es ec six port nf nt good n =
    let p = ntohs g.named.address.port in
    (
      udp_server_setup_lem server_port g rest_s server es,
      rw
          (
            check_args_accepts f program from_file to_file rate host window buffer p nf nt good n,
            setup_udp_client_to_server_lem inet_ntop host p g rest_c client ec six,
            htons-ntohs g.named.address.port port,
          )
          refl,
    )

-- If checkArgs of rcopy accepts a command line whose first argument has no NUL, then the request
-- that send_filename sends for it, as the first datagram that comes to the server, makes
-- processFilenameAck open the file of that name and return it with the window and buffer sizes of
-- the command line after sending an acknowledgement, or return NULL after sending an error if there
-- is no such file.
pub request_opens_file :
    (f : Floats) (argv : List (List ℕ)) (port : ℕ) (opens : List ℕ → Option (List ℕ))
    (stack : ℕ → ℕ) (client : Rcopy) (server : Net) (rest : List Arrival)
    → check_args f argv ≡ ok port
    → IsName (arg argv 1)
    → client.net.sent ≡ []
    → (asked : Rcopy) × (send_filename (args_of argv) client ≡ ok (tt, asked))
      × (process_filename_ack opens stack
            (record server { arrivals = datagrams asked.net.sent rest })
          ≡ expected server rest (atoi (arg argv 3)) (atoi (arg argv 4)) (opens (arg argv 1)))
unfolding send_filename safe_sendto
request_opens_file f argv port opens stack client server rest accepted name fresh =
    let (ported, eight, names, sizes) = check_args_bounds f argv port accepted in
    let a = args_of argv in
    let packet = filename_packet a.window_size a.buffer_size a.from_file in
    (
      record client { net = record client.net { sent = client.net.sent ++ (packet ∷ []) } },
      refl,
      rw fresh (
          process_filename_ack_lem [] a.window_size a.buffer_size a.from_file opens stack
            (record server { arrivals = datagram packet ∷ rest }) rest (omega arith) tt
            (omega (arith, sizes)) (omega (arith, sizes)) name (omega (arith, names)) refl),
    )
