-- ===== src/Networks/Connect.antt =====
-- networks.c: a client that is given the port which a server prints connects to that port.
use cpe464_program.Common.{
  List, Option, [], append_assoc, arith, ok, refl, some, true, write_at, ℕ, ◌++◌, ◌<◌, ◌^◌, ◌∙◌,
  ◌∷◌, ◌≡◌,
}
use cpe464_program.Lookup.Laws.{IsAddress6, gethostbyname6_finds, lookup_call}
use cpe464_program.Networks.{address_of, tcp_client_setup, tcp_server_setup}
use cpe464_program.Networks.Laws.{
  ServerGrants, htons-ntohs, listens, ntohs-lt, server_replies, tcp_server_setup_lem,
}
use cpe464_program.Numbers.{atoi}
use cpe464_program.Numbers.Laws.{atoi-decimal, decimal}
use cpe464_program.Socket.{
  Call, Grant, Kernel, af_inet6, connect_to, htons, ntohs, sock_stream, socket,
}

-- The replies of a TCP client's set-up that succeeds.
pub record ClientGrants : Type 0 where
  pub opened : Grant
  pub found : Grant
  pub connected : Grant

abbrev pub client_replies : ClientGrants → List (Option Grant) → List (Option Grant)
client_replies g rest = some g.opened ∷ some g.found ∷ some g.connected ∷ rest

abbrev pub client_calls : ClientGrants → List ℕ → ℕ → List Call
client_calls g host port =
    socket sock_stream
    ∷ lookup_call host
    ∷ connect_to g.opened.value
        (record { family = af_inet6; port = port; addr = g.found.address.addr })
    ∷ []

-- The state after a client's set-up, to an address with this port, in network order, and with the port
-- that is printed.
abbrev pub connected_to :
    (ℕ → List ℕ → List ℕ) → ClientGrants → List ℕ → ℕ → ℕ → List (Option Grant) → Kernel → Kernel
connected_to inet_ntop g host port shown rest k =
    let found = write_at 0 g.found.address.addr k.ip_address in
    record k {
      replies = rest;
      calls = k.calls ++ client_calls g host port;
      printed = k.printed ++ ((inet_ntop af_inet6 found, shown) ∷ []);
      ip_address = found;
    }

tcp_client_setup_lem :
    (inet_ntop : ℕ → List ℕ → List ℕ) (host text : List ℕ) (g : ClientGrants)
    (rest : List (Option Grant)) (k : Kernel)
    → k.replies ≡ client_replies g rest
    → IsAddress6 g.found.address
    → tcp_client_setup inet_ntop host text true k
      ≡ ok (g.opened.value, connected_to inet_ntop g host (htons (atoi text)) (atoi text) rest k)
unfolding tcp_client_setup
tcp_client_setup_lem inet_ntop host text g rest k e six =
    let cleared = address_of (htons (atoi text)) in
    let opened = record k {
      replies = some g.found ∷ some g.connected ∷ rest;
      calls = k.calls ++ (socket sock_stream ∷ []);
    } in
    rw e (
      rw
        (gethostbyname6_finds cleared host cleared opened (some g.connected ∷ rest) g.found refl six
          refl)
        (simp (append_assoc)))

-- If the calls of both set-ups succeed and the kernel gives the server a port of 16 bits, then
-- tcpServerSetup binds, asks for the port, listens and prints it, and tcpClientSetup, given the
-- printed port in decimal, connects to exactly that port at the address that was looked up.
pub client_reaches_server :
    (inet_ntop : ℕ → List ℕ → List ℕ) (host : List ℕ) (server_port : ℕ) (gs : ServerGrants)
    (gc : ClientGrants) (rest_s rest_c : List (Option Grant)) (server client : Kernel)
    → server.replies ≡ server_replies gs rest_s
    → client.replies ≡ client_replies gc rest_c
    → IsAddress6 gc.found.address
    → gs.named.address.port < 2 ^ 16
    → let printed_port = ntohs gs.named.address.port in
      (tcp_server_setup server_port server
        ≡ ok (gs.opened.value, listens gs server_port printed_port rest_s server))
      × (tcp_client_setup inet_ntop host (decimal printed_port) true client
          ≡ ok (
            gc.opened.value,
            connected_to inet_ntop gc host gs.named.address.port printed_port rest_c client,
          ))
client_reaches_server inet_ntop host server_port gs gc rest_s rest_c server client es ec six port =
    let p = ntohs gs.named.address.port in
    let small : p < 2 ^ 32 = omega (arith, ntohs-lt gs.named.address.port) in
    (
      tcp_server_setup_lem server_port gs rest_s server es,
      tcp_client_setup_lem inet_ntop host (decimal p) gc rest_c client ec six
          ∙ rw (atoi-decimal p small, htons-ntohs gs.named.address.port port) refl,
    )
