-- ===== src/Rcopy/Main/Delivery/Tests.antt =====
-- A run of rcopy for a file of one byte, on descriptor 5.
use cpe464_program.Common.{
  Ensures, List, [], ap, arith, codes, false, inr, ok, ok-injective, refl, replicate, set, some,
  subst, suc, sym, take, true, zero, ℕ, ◌+◌, ◌<◌, ◌^◌, ◌∙◌, ◌∷◌, ◌≡◌,
}
use cpe464_program.Buffer.{CircularBuffer, Memory, buffer_add, buffer_init, fresh_entry}
use cpe464_program.Checksum.{in_cksum}
use cpe464_program.Floats.{whole_floats}
use cpe464_program.Lookup.{gethostbyname6}
use cpe464_program.Net.{Arrival, Net, datagram, poll, safe_recvfrom, safe_sendto}
use cpe464_program.Networks.{setup_udp_client_to_server}
use cpe464_program.Numbers.{atoi, scan_digits, strtol}
use cpe464_program.Packet.{
  build_packet, filename_packet, flag_data, flag_eof, flag_filename_ack, max_pdu, rr_packet,
}
use cpe464_program.Poll.{Answer, add_to_poll_set, answered, poll_call, setup_poll_set, unwatched}
use cpe464_program.Rcopy.{Rcopy, RecvState, finished, inorder, next_inorder, receive_data_fsm}
use cpe464_program.Rcopy.Delivery.{Carries}
use cpe464_program.Rcopy.Delivery.File.{block_of, start}
use cpe464_program.Rcopy.Delivery.Transfer.{
  NextIsAdmissible, NextIsAdmissible-of_arrival, RunIsAdmissible, RunIsAdmissible-step,
  RunIsAdmissible-stop,
}
use cpe464_program.Rcopy.Exchange.{
  Args, RcopyState, filename_exchange, is_terminated, on_response, process_filename_response,
  receive_data, send_filename, take_response,
}
use cpe464_program.Rcopy.Exchange.Response.{HaveNuls}
use cpe464_program.Rcopy.Main.{arg, args_of, check_args, is_bad_number, main}
use cpe464_program.Rcopy.Main.Delivery.{ExchangeIsHonest, Transferred, main_delivers}
use cpe464_program.Socket.{Grant, Kernel, SockAddr, af_inet6}

abbrev argv : List (List ℕ)
argv =
    codes "rcopy"
    ∷ codes "a"
    ∷ codes "b"
    ∷ codes "2"
    ∷ codes "2"
    ∷ codes "0"
    ∷ codes "host"
    ∷ codes "5000"
    ∷ []

abbrev args : Args
args = record { from_file = codes "a"; window_size = 2; buffer_size = 2 }

args_read : args_of argv ≡ args
unfolding atoi strtol scan_digits
args_read = refl

accepted : check_args whole_floats argv ≡ ok 5000
unfolding check_args is_bad_number strtol scan_digits
accepted = refl

abbrev memory : Memory
memory = record { fails = λ i. false; junk = λ i j. 7; junk_len = λ i. 9 }

abbrev stack : ℕ → ℕ
stack i = 170

abbrev buffer : CircularBuffer
buffer = record {
  entries = fresh_entry memory 2 0 ∷ fresh_entry memory 2 1 ∷ [];
  highest = 0;
  lowest = 0;
  current = 0;
  size = 2;
  buffer_size = 2;
}

buffer_made : buffer_init memory 2 2 0 ≡ ok buffer
unfolding buffer_init
buffer_made = refl

abbrev ready : Answer
ready = answered 1 (0 ∷ 0 ∷ 0 ∷ 0 ∷ 0 ∷ 1 ∷ [])

abbrev block_0 : List ℕ
block_0 = build_packet 0 flag_data (9 ∷ [])

abbrev eof_packet : List ℕ
eof_packet = build_packet 1 flag_eof []

abbrev transfer : List Arrival
transfer = datagram block_0 ∷ datagram eof_packet ∷ datagram eof_packet ∷ []

abbrev net : Net
net = record {
  poll_set = record { descriptors = []; max_descriptor = 0; set_size = 0 };
  answers = ready ∷ ready ∷ ready ∷ ready ∷ [];
  arrivals = datagram (build_packet 0 flag_filename_ack []) ∷ transfer;
  sent = [];
}

-- After the acknowledgement of the request.
received : Net
received = record {
  poll_set = record {
    descriptors = set (replicate 10 unwatched) 5 (record { fd = 5; events = 1 });
    max_descriptor = 6;
    set_size = 10;
  };
  answers = ready ∷ ready ∷ ready ∷ [];
  arrivals = transfer;
  sent = filename_packet 2 2 (codes "a") ∷ [];
}

exchange_runs :
    filename_exchange stack 5 args (start buffer net) ≡ ok (receive_data, start buffer received)
unfolding filename_exchange received in_cksum build_packet filename_packet safe_sendto safe_recvfrom
    poll poll_call add_to_poll_set setup_poll_set on_response take_response is_terminated
    send_filename process_filename_response
exchange_runs = refl

abbrev file : List ℕ
file = 9 ∷ []

abbrev payload : ℕ → List ℕ
payload = block_of 2 file

abbrev room : 1 + 1 < 2 ^ 31
room = omega arith

advance : ℕ → Rcopy → Rcopy
advance zero s = s
advance (suc n) s = elim (receive_data_fsm 5 inorder s) [ ok r ↦ advance n r.1 | _ ↦ s ]

abbrev moment : ℕ → Rcopy
moment n = advance n (start buffer received)

arrives :
    (n k : ℕ) (bytes : List ℕ) (rest : List Arrival)
    → (moment n).net.arrivals ≡ datagram bytes ∷ rest
    → Carries payload 1 inorder (moment n).buffer (take max_pdu bytes) k
    → NextIsAdmissible payload 1 room 5 inorder (moment n)
arrives n k bytes rest e c =
    NextIsAdmissible-of_arrival payload 1 room 5 inorder (moment n) bytes rest e (inr (k, c))

transfer_is_admissible : RunIsAdmissible payload 1 room 5 9 inorder (start buffer received)
unfolding advance receive_data_fsm next_inorder buffer_add in_cksum rr_packet build_packet
    safe_sendto safe_recvfrom poll poll_call received
transfer_is_admissible =
    then_on 8 inorder 0 1
      (arrives 0 0 block_0 _ refl (record {
        long = omega arith;
        number = refl;
        content = refl;
        in_file = omega arith;
        eof = λ e. absurd (omega arith);
        small = omega arith;
        near = omega arith;
        ordered = λ e h. absurd (cc);
      }))
      refl
      (then_on 7 inorder 1 2
        (arrives 1 1 eof_packet _ refl (record {
          long = omega arith;
          number = refl;
          content = refl;
          in_file = omega arith;
          eof = λ e. refl;
          small = omega arith;
          near = omega arith;
          ordered = λ e h. absurd (cc);
        }))
        refl
        (then_on 6 finished 2 3
          (arrives 2 1 eof_packet _ refl (record {
            long = omega arith;
            number = refl;
            content = refl;
            in_file = omega arith;
            eof = λ e. refl;
            small = omega arith;
            near = omega arith;
            ordered = λ e h. absurd (cc);
          }))
          refl (RunIsAdmissible-stop payload 1 room 5 6 (moment 3) refl)))
  where
    then_on :
        (fuel : ℕ) (after : RecvState) (n n' : ℕ)
        → NextIsAdmissible payload 1 room 5 inorder (moment n)
        → receive_data_fsm 5 inorder (moment n) ≡ ok (after, moment n')
        → RunIsAdmissible payload 1 room 5 fuel after (moment n')
        → RunIsAdmissible payload 1 room 5 (suc fuel) inorder (moment n)
    then_on fuel after n n' =
        RunIsAdmissible-step payload 1 room 5 fuel inorder after (moment n) (moment n')

arrivals-HaveNuls : HaveNuls 10 net.arrivals
unfolding is_terminated build_packet in_cksum
arrivals-HaveNuls = (refl, (refl, (refl, (refl, tt))))

exchange_is_honest : ExchangeIsHonest file 1 room memory stack 9 5 args net
exchange_is_honest b t made e =
    let same_buffer : buffer ≡ b = ok-injective (sym buffer_made ∙ made) in
    let same_run =
      sym exchange_runs ∙ ap (λ c. filename_exchange stack 5 args (start c net)) same_buffer ∙ e in
    subst (λ s. RunIsAdmissible payload 1 room 5 9 inorder s)
      (ap (λ (r : RcopyState × Rcopy). r.1) (ok-injective same_run)) transfer_is_admissible

abbrev address : SockAddr
address = record { family = af_inet6; port = 0; addr = replicate 16 7 }

abbrev grant : ℕ → Grant
grant value = record { value = value; address = address; bytes = [] }

abbrev kernel : Kernel
kernel = record {
  replies = some (grant 5) ∷ some (grant 0) ∷ some (grant 0) ∷ [];
  calls = [];
  printed = [];
  ip_address = replicate 46 0;
}

abbrev show : ℕ → List ℕ → List ℕ
show family bytes = take 16 bytes

socket_is_5 :
    (r : (ℕ × SockAddr) × Kernel)
    → setup_udp_client_to_server show (arg argv 6) 5000 kernel ≡ ok r
    → 5 ≡ r.0.0
unfolding setup_udp_client_to_server gethostbyname6
socket_is_5 r e = ap (λ (q : (ℕ × SockAddr) × Kernel). q.0.0) (ok-injective e)

main_delivers_example :
    Ensures
      (λ r. Transferred file (args_of argv) net r.1)
      (main whole_floats show (λ name. true) memory stack 9 argv kernel net)
main_delivers_example =
    main_delivers whole_floats show (λ name. true) memory stack 9 argv 5000 kernel net file 1 room
      accepted (omega (arith, ap (λ (a : Args). a.buffer_size) args_read)) (omega arith)
      arrivals-HaveNuls (omega arith)
      λ r e.
        subst (λ a. ExchangeIsHonest file 1 room memory stack 9 r.0.0 a net) (sym args_read)
          (subst (λ n. ExchangeIsHonest file 1 room memory stack 9 n args net) (socket_is_5 r e)
            exchange_is_honest)
