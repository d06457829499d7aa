-- ===== src/Networks/Tests.antt =====
-- Set-ups that fail at one of their calls, and a client that reaches a server.
use cpe464_program.Common.{
  List, Option, [], arith, codes, exit, none, ok, refl, replicate, some, take, true, ℕ, ◌∷◌, ◌≡◌,
}
use cpe464_program.Networks.{tcp_client_setup, tcp_server_setup, udp_server_setup}
use cpe464_program.Networks.Connect.{
  ClientGrants, client_reaches_server, client_replies, connected_to,
}
use cpe464_program.Networks.Laws.{
  ServerGrants, fails_after, listens, server_replies, set_up, set_up_exits, tcp_server,
}
use cpe464_program.Numbers.Laws.{decimal}
use cpe464_program.Poll.{exit_minus_1}
use cpe464_program.Socket.{
  Grant, Kernel, any_address, bind_to, get_sock_name, htons, ntohs, sock_dgram, socket,
}

-- What a call returns, and the port and the address that it fills in.
abbrev grant : ℕ → ℕ → Grant
grant value port = record {
  value = value;
  address = record { family = 10; port = port; addr = replicate 16 7 };
  bytes = [];
}

abbrev kernel : List (Option Grant) → Kernel
kernel replies = record { replies = replies; calls = []; printed = []; ip_address = replicate 46 0 }

abbrev show : ℕ → List ℕ → List ℕ
show family bytes = take 16 bytes

-- `bind` fails, after `socket` has given descriptor 3.
set_up_exits_example :
    set_up show (tcp_server 0) (kernel (fails_after (grant 3 0 ∷ []) [])) ≡ exit exit_minus_1
set_up_exits_example =
    set_up_exits show (tcp_server 0) (grant 3 0 ∷ []) [] (kernel (fails_after (grant 3 0 ∷ []) []))
      (omega arith) refl

abbrev server_grants : ServerGrants
server_grants = record {
  opened = grant 3 0;
  bound = grant 0 0;
  named = grant 0 4660;
  listening = grant 0 0;
}

abbrev client_grants : ClientGrants
client_grants = record { opened = grant 5 0; found = grant 0 0; connected = grant 0 0 }

-- The kernel chooses the port 13330, whose bytes are those of 4660 the other way round.
client_reaches_server_example :
    let printed_port = ntohs 4660 in
    (tcp_server_setup 0 (kernel (server_replies server_grants []))
      ≡ ok (3, listens server_grants 0 printed_port [] (kernel (server_replies server_grants []))))
    × (tcp_client_setup show
          (codes "host")
          (decimal printed_port)
          true
          (kernel (client_replies client_grants []))
        ≡ ok (
          5,
          connected_to show client_grants
              (codes "host")
              4660
              printed_port
              []
              (kernel (client_replies client_grants [])),
        ))
client_reaches_server_example =
    client_reaches_server show (codes "host") 0 server_grants client_grants [] []
      (kernel (server_replies server_grants [])) (kernel (client_replies client_grants [])) refl
      refl refl (omega arith)

chosen_port : ntohs 4660 ≡ 13330
unfolding ntohs
chosen_port = refl

-- `udpServerSetup` prints the port that it asked for, where `getsockname` fails.
unnamed :
    udp_server_setup 5000 (kernel (some (grant 3 0) ∷ some (grant 0 0) ∷ none ∷ []))
    ≡ ok (
      3,
      record (kernel []) {
        calls =
            socket sock_dgram
            ∷ bind_to 3 (record { family = 10; port = 34835; addr = any_address })
            ∷ get_sock_name 3
            ∷ [];
        printed = ([], 5000) ∷ [];
      },
    )
unfolding udp_server_setup htons ntohs
unnamed = refl
