-- ===== src/Tcp.antt =====
-- myClient.c and myServer.c: a line of text from the standard input of one program to the standard
-- output of the other, over TCP. The standard input is a list of bytes; after its end `getchar` gives
-- EOF, which becomes the byte 255.
pub mod Laws
pub mod Message
mod Tests
use cpe464_program.Common.{
  List, M, Option, Run, [], and_then, exit, fault, get_or, if◌then◌else◌, length, ltb, none, ok,
  or_undefined, return, set, some, suc, take, true, write_at, zero, ℕ, ◌++◌, ◌+◌, ◌-◌, ◌==◌, ◌>>=◌,
  ◌>>◌, ◌∷◌,
}
use cpe464_program.Networks.{tcp_accept, tcp_client_setup, tcp_server_setup}
use cpe464_program.Numbers.{atoi}
use cpe464_program.Poll.{exit_minus_1}
use cpe464_program.Socket.{Kernel, close, print, safe_recv, safe_send}

abbrev pub maxbuf : ℕ
maxbuf = 1024

abbrev pub newline : ℕ
newline = 10

-- `(char) EOF`
abbrev pub eof_char : ℕ
eof_char = 255

abbrev pub getchar : List ℕ → ℕ × List ℕ
getchar [] = (eof_char, [])
getchar (c ∷ input) = (c, input)

-- buffer[i] = c
unfoldable pub store_char : ℕ → ℕ → List ℕ → Run (List ℕ)
store_char i c buffer = if ltb i (length buffer) then ok (set buffer i c) else fault

-- What `readFromStdin` has done: the buffer, the number of characters in it, and the input left.
pub record Line : Type 0 where
  pub buffer : List ℕ
  pub input_len : ℕ
  pub input : List ℕ

-- The loop of `readFromStdin` with room for `left` more characters.
unfoldable pub read_loop : ℕ → Line → Run Line
unfolding store_char
read_loop zero l = ok l
read_loop (suc left) l =
    let (a_char, input) = getchar l.input in
    let rest =
      and_then (store_char l.input_len a_char l.buffer)
        λ b. read_loop left (record { buffer = b; input_len = l.input_len + 1; input = input }) in
    if a_char == newline then ok (record l { input = input }) else rest

unfoldable pub read_from_stdin : List ℕ → List ℕ → Run Line
read_from_stdin buffer input = and_then (store_char 0 0 buffer) λ b.
    and_then (read_loop (maxbuf - 1) (record { buffer = b; input_len = 0; input = input })) λ l.
      and_then (store_char l.input_len 0 l.buffer)
        λ terminated. ok (record l { buffer = terminated; input_len = l.input_len + 1 })

abbrev pub cons_text : ℕ → Option (List ℕ) → Option (List ℕ)
cons_text b none = none
cons_text b (some text) = some (b ∷ text)

-- The string in an array, as `%s` reads it: none if no NUL stands in it.
unfoldable pub text_of : List ℕ → Option (List ℕ)
text_of [] = none
text_of (b ∷ bytes) = let rest = text_of bytes in if b == 0 then some [] else cons_text b rest

-- `sendToServer`: `stack` is what `sendBuf` holds at first. What is printed is the string that was read,
-- with its length, and how much was sent.
unfoldable pub send_to_server : List ℕ → ℕ → List ℕ → M Kernel (List ℕ)
unfolding safe_send
send_to_server stack socket_num input k = and_then (read_from_stdin stack input) λ l.
    and_then (or_undefined (text_of l.buffer)) λ shown.
      (do
        print shown l.input_len
        sent ← safe_send socket_num (take l.input_len l.buffer)
        print [] sent
        return l.input)
        k

-- `recvFromClient`: the string that is printed, or none if the other side has closed.
unfoldable pub recv_from_client : List ℕ → ℕ → M Kernel (Option (List ℕ))
unfolding safe_recv
recv_from_client stack client_socket k = and_then (safe_recv client_socket maxbuf k) λ r.
    if ltb 0 (length r.0)
    then (and_then (or_undefined (text_of (write_at 0 r.0 stack))) λ shown.
        ok (some shown, record r.1 { printed = r.1.printed ++ ((shown, length r.0) ∷ []) }))
    else ok (none, r.1)

unfoldable pub client_check_args : List (List ℕ) → Run (Unit {0})
client_check_args argv = if length argv == 3 then ok tt else exit 1

unfoldable pub server_check_args : List (List ℕ) → Run ℕ
server_check_args argv =
    if ltb 2 (length argv)
    then exit exit_minus_1
    else ok (if length argv == 2 then atoi (get_or argv 1 []) else 0)

module _ (inet_ntop : ℕ → List ℕ → List ℕ) where
  unfoldable pub client_main : List ℕ → List (List ℕ) → List ℕ → M Kernel (Unit {0})
  unfolding client_check_args
  client_main stack argv input k = and_then (client_check_args argv) λ u.
      (do
        socket_num ← tcp_client_setup inet_ntop (get_or argv 1 []) (get_or argv 2 []) true
        _ ← send_to_server stack socket_num input
        close socket_num)
        k

  unfoldable pub server_main : List ℕ → List (List ℕ) → M Kernel (Option (List ℕ))
  unfolding server_check_args
  server_main stack argv k = and_then (server_check_args argv) λ port_number.
      (do
        main_server_socket ← tcp_server_setup port_number
        client_socket ← tcp_accept inet_ntop main_server_socket true
        shown ← recv_from_client stack client_socket
        close client_socket
        close main_server_socket
        return shown)
        k
