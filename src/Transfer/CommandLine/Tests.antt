-- ===== src/Transfer/CommandLine/Tests.antt =====
-- A command line, and the socket and the request that it leads to.
use cpe464_program.Common.{
  List, Option, [], and_then, arith, codes, false, ok, refl, replicate, some, take, ℕ, ◌∷◌, ◌≡◌,
}
use cpe464_program.Floats.{is_bad_rate, whole_floats}
use cpe464_program.Net.{Net}
use cpe464_program.Networks.{setup_udp_client_to_server, udp_server_setup}
use cpe464_program.Numbers.{atoi, scan_digits, strtol}
use cpe464_program.Numbers.Laws.{decimal}
use cpe464_program.Rcopy.{Rcopy}
use cpe464_program.Rcopy.Exchange.{send_filename}
use cpe464_program.Rcopy.Main.{arg, args_of, check_args, is_bad_number}
use cpe464_program.Rcopy.Main.Laws.{command_line}
use cpe464_program.Server.Request.{process_filename_ack}
use cpe464_program.Server.Request.Laws.{datagrams, expected}
use cpe464_program.Socket.{Grant, Kernel, af_inet6, ntohs}
use cpe464_program.Transfer.CommandLine.{
  AreNumbers, UdpGrants, rcopy_finds_server, request_opens_file, udp_aims, udp_client_replies,
  udp_listens, udp_server_replies,
}

abbrev grant : ℕ → ℕ → Grant
grant value port = record {
  value = value;
  address = record { family = 10; port = port; addr = replicate 16 7 };
  bytes = [];
}

abbrev grants : UdpGrants
grants = record {
  bound_socket = grant 3 0;
  bound = grant 0 0;
  named = grant 0 4660;
  client_socket = grant 5 0;
  found = grant 0 0;
}

abbrev kernel : List (Option Grant) → Kernel
kernel replies = record { replies = replies; calls = []; printed = []; ip_address = replicate 46 0 }

abbrev show : ℕ → List ℕ → List ℕ
show family bytes = take 16 bytes

rate : is_bad_rate whole_floats (codes "0") ≡ false
unfolding scan_digits
rate = refl

numbers : AreNumbers 10 1000 (ntohs 4660)
unfolding ntohs
numbers = omega arith

rcopy_finds_server_example :
    let printed_port = ntohs 4660 in
    (udp_server_setup 0 (kernel (udp_server_replies grants []))
      ≡ ok (3, udp_listens grants 0 printed_port [] (kernel (udp_server_replies grants []))))
    × (and_then
          (check_args whole_floats (
            command_line
              (codes "rcopy")
              (codes "a")
              (codes "b")
              10
              1000
              (codes "0")
              (codes "host")
              printed_port))
          (λ port.
            setup_udp_client_to_server show
              (codes "host")
              port
              (kernel (udp_client_replies grants [])))
        ≡ ok (
          (5, record { family = af_inet6; port = 4660; addr = replicate 16 7 }),
          udp_aims show grants
              (codes "host")
              printed_port
              []
              (kernel (udp_client_replies grants [])),
        ))
rcopy_finds_server_example =
    rcopy_finds_server whole_floats show (codes "rcopy") (codes "a") (codes "b") (codes "0")
      (codes "host") 10 1000 0 grants [] [] (kernel (udp_server_replies grants []))
      (kernel (udp_client_replies grants [])) refl refl refl (omega arith) (omega arith)
      (omega arith) rate numbers

abbrev argv : List (List ℕ)
argv = command_line (codes "rcopy") (codes "a") (codes "b") 10 1000 (codes "0") (codes "host") 5000

accepted : check_args whole_floats argv ≡ ok 5000
unfolding check_args is_bad_number strtol decimal scan_digits
accepted = refl

abbrev net : Net
net = record {
  poll_set = record { descriptors = []; max_descriptor = 4; set_size = 10 };
  answers = [];
  arrivals = [];
  sent = [];
}

abbrev client : Rcopy
client = record {
  net = net;
  buffer = record {
    entries = [];
    highest = 0;
    lowest = 0;
    current = 0;
    size = 10;
    buffer_size = 1000;
  };
  out_file = [];
  eof_seq_num = 0;
}

abbrev opens : List ℕ → Option (List ℕ)
opens name = some (7 ∷ 8 ∷ [])

request_opens_file_example :
    (asked : Rcopy) × (send_filename (args_of argv) client ≡ ok (tt, asked))
    × (process_filename_ack opens (λ i. 170) (record net { arrivals = datagrams asked.net.sent [] })
        ≡ expected net [] (atoi (arg argv 3)) (atoi (arg argv 4)) (opens (arg argv 1)))
request_opens_file_example =
    request_opens_file whole_floats argv 5000 opens (λ i. 170) client net [] accepted (omega arith)
      refl
