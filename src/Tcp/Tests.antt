-- ===== src/Tcp/Tests.antt =====
-- The line "hi" from one program to the other.
use cpe464_program.Common.{
  List, [], arith, codes, length, length-replicate, ok, refl, replicate, some, take, ℕ, ◌++◌, ◌-◌,
  ◌∷◌, ◌≡◌, ◌≤◌,
}
use cpe464_program.Socket.{Grant, Kernel}
use cpe464_program.Tcp.{Line, maxbuf, newline, read_from_stdin, recv_from_client, send_to_server}
use cpe464_program.Tcp.Laws.{HasNoNewline, line_of, terminated}
use cpe464_program.Tcp.Message.{has_sent, has_shown, message_is_shown, read_from_stdin_bounds}

abbrev grant : List ℕ → Grant
grant bytes = record {
  value = 3;
  address = record { family = 10; port = 0; addr = [] };
  bytes = bytes;
}

abbrev kernel : List ℕ → Kernel
kernel bytes = record {
  replies = some (grant bytes) ∷ [];
  calls = [];
  printed = [];
  ip_address = [];
}

abbrev stack : List ℕ
stack = replicate maxbuf 170

stack_size : length stack ≡ maxbuf
stack_size = length-replicate {A = ℕ} maxbuf 170

read_from_stdin_bounds_example :
    (l : Line) × (read_from_stdin stack [] ≡ ok l)
    × (length l.buffer ≡ maxbuf)
    × (l.input_len ≤ maxbuf)
    × (take l.input_len l.buffer ≡ terminated (line_of (maxbuf - 1) []))
    × HasNoNewline (line_of (maxbuf - 1) [])
read_from_stdin_bounds_example = read_from_stdin_bounds stack [] stack_size

message_is_shown_example :
    (send_to_server stack 3 (codes "hi" ++ newline ∷ codes "ho") (kernel [])
      ≡ ok (codes "ho", has_sent 3 (codes "hi") (grant []) [] (kernel [])))
    × (recv_from_client stack 4 (kernel (terminated (codes "hi")))
        ≡ ok (some (codes "hi"), has_shown 4 (codes "hi") [] (kernel (terminated (codes "hi")))))
message_is_shown_example =
    message_is_shown stack stack 3 4 (codes "hi") (codes "ho") (kernel [])
      (kernel (terminated (codes "hi"))) (grant []) (grant (terminated (codes "hi"))) [] []
      stack_size stack_size (omega arith) (omega arith)
      ((λ e. omega (arith, e)), ((λ e. omega (arith, e)), tt)) refl refl refl
