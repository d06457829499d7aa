-- ===== src/Tcp/Message.antt =====
-- myClient.c and myServer.c: the line that is typed at the client is the text that the server shows.
use cpe464_program.Common.{
  List, Option, [], ap, arith, fault, length, length-set, length-write_at, lt→ltb, ne→==, none, ok,
  refl, set, some, subst, suc, take, take-write_at, take_of_length_le, write_at, zero, ℕ, ◌++◌, ◌+◌,
  ◌-◌, ◌<◌, ◌∙◌, ◌∷◌, ◌≡◌, ◌≤◌,
}
use cpe464_program.Socket.{Grant, Kernel, recv_on, send_on}
use cpe464_program.Tcp.{
  Line, maxbuf, newline, read_from_stdin, recv_from_client, send_to_server, text_of,
}
use cpe464_program.Tcp.Laws.{
  HasNoNewline, IsText, after_line, length-line_of, length-terminated, line_of,
  line_of-HasNoNewline, read_from_stdin_eq, terminated,
}

-- What is read back of the buffer.
take-terminated :
    (text stack : List ℕ)
    → length text < length stack
    → take (length text + 1) (write_at 0 (terminated text) stack) ≡ terminated text
take-terminated text stack room =
    subst (λ n. take n (write_at 0 (terminated text) stack) ≡ terminated text)
      (length-terminated text)
      (take-write_at (terminated text) stack (omega (arith, room, length-terminated text)))

-- Whatever its buffer of 1024 bytes held and whatever the input is, readFromStdin returns and writes
-- nothing outside the buffer; the length that it returns is at most 1024, and that many bytes of the
-- buffer are the first line of the input, of at most 1023 bytes, with a NUL behind it and no
-- newline. After the end of the input the line is filled up with bytes 255.
pub read_from_stdin_bounds :
    (stack input : List ℕ)
    → length stack ≡ maxbuf
    → (l : Line) × (read_from_stdin stack input ≡ ok l)
      × (length l.buffer ≡ maxbuf)
      × (l.input_len ≤ maxbuf)
      × (take l.input_len l.buffer ≡ terminated (line_of (maxbuf - 1) input))
      × HasNoNewline (line_of (maxbuf - 1) input)
read_from_stdin_bounds stack input room =
    let line = line_of (maxbuf - 1) input in
    let short = length-line_of (maxbuf - 1) input in
    let size = length-set stack 0 0 in
    (
      record {
        buffer = write_at 0 (terminated line) (set stack 0 0);
        input_len = length line + 1;
        input = after_line (maxbuf - 1) input;
      },
      read_from_stdin_eq stack input room,
      length-write_at 0 (terminated line) (set stack 0 0) ∙ size ∙ room,
      omega (arith, short),
      take-terminated line (set stack 0 0) (omega (arith, short, size, room)),
      line_of-HasNoNewline (maxbuf - 1) input,
    )

line_of-append :
    (n : ℕ) (text more : List ℕ)
    → length text < n
    → HasNoNewline text
    → (line_of n (text ++ newline ∷ more) ≡ text) × (after_line n (text ++ newline ∷ more) ≡ more)
line_of-append zero text more short clean = absurd (omega arith)
line_of-append (suc n) [] more short clean = (refl, refl)
line_of-append (suc n) (c ∷ text) more short clean =
    let ih = line_of-append n text more (omega arith) clean.1 in
    rw (ne→== c newline clean.0) (ap (◌∷◌ c) ih.0, ih.1)

-- `%s` of an array that begins with a terminated text.
pub text_of-terminated :
    (text stack : List ℕ)
    → IsText text
    → length text < length stack
    → text_of (write_at 0 (terminated text) stack) ≡ some text
unfolding text_of
text_of-terminated [] [] clean room = absurd (omega arith)
text_of-terminated [] (d ∷ stack) clean room = refl
text_of-terminated (c ∷ text) [] clean room = absurd (omega arith)
text_of-terminated (c ∷ text) (d ∷ stack) clean room =
    rw (ne→== c 0 (λ e. omega (arith, e, clean.0)))
      (rw (text_of-terminated text stack clean.1 (omega arith)) refl)

-- And of one that is full, with no NUL in it.
text_of-full :
    (bytes stack : List ℕ)
    → IsText bytes
    → length stack ≤ length bytes
    → text_of (write_at 0 bytes stack) ≡ none
unfolding text_of
text_of-full [] [] clean full = refl
text_of-full [] (d ∷ stack) clean full = absurd (omega arith)
text_of-full (c ∷ bytes) [] clean full = refl
text_of-full (c ∷ bytes) (d ∷ stack) clean full =
    rw (ne→== c 0 (λ e. omega (arith, e, clean.0)))
      (rw (text_of-full bytes stack clean.1 (omega arith)) refl)

-- The client's state after the line `text` has been sent.
abbrev pub has_sent : ℕ → List ℕ → Grant → List (Option Grant) → Kernel → Kernel
has_sent socket_num text g rest k = record k {
  replies = rest;
  calls = k.calls ++ (send_on socket_num (terminated text) ∷ []);
  printed = (k.printed ++ ((text, length text + 1) ∷ [])) ++ (([], g.value) ∷ []);
}

-- The server's state after it has been received.
abbrev pub has_shown : ℕ → List ℕ → List (Option Grant) → Kernel → Kernel
has_shown client_socket text rest k = record k {
  replies = rest;
  calls = k.calls ++ (recv_on client_socket maxbuf ∷ []);
  printed = k.printed ++ ((text, length text + 1) ∷ []);
}

send_to_server_lem :
    (stack : List ℕ) (socket_num : ℕ) (text more : List ℕ) (k : Kernel) (g : Grant)
    (rest : List (Option Grant))
    → length stack ≡ maxbuf
    → length text < maxbuf - 1
    → IsText text
    → HasNoNewline text
    → k.replies ≡ some g ∷ rest
    → send_to_server stack socket_num (text ++ newline ∷ more) k
      ≡ ok (more, has_sent socket_num text g rest k)
unfolding send_to_server
send_to_server_lem stack socket_num text more k g rest room short clean flat e =
    let l = line_of-append (maxbuf - 1) text more short flat in
    let size = length-set stack 0 0 in
    rw (read_from_stdin_eq stack (text ++ newline ∷ more) room) (
      rw (l.0, l.1)
        (rw (text_of-terminated text (set stack 0 0) clean (omega (arith, size, room)))
          (rw (e, take-terminated text (set stack 0 0) (omega (arith, size, room))) refl)))

recv_from_client_lem :
    (stack : List ℕ) (client_socket : ℕ) (text : List ℕ) (k : Kernel) (h : Grant)
    (rest : List (Option Grant))
    → length stack ≡ maxbuf
    → length text < maxbuf
    → IsText text
    → k.replies ≡ some h ∷ rest
    → h.bytes ≡ terminated text
    → recv_from_client stack client_socket k ≡ ok (some text, has_shown client_socket text rest k)
unfolding recv_from_client
recv_from_client_lem stack client_socket text k h rest room short clean e bytes =
    let size = length-terminated text in
    rw (e, bytes)
      (rw (take_of_length_le maxbuf (terminated text) (omega (arith, size))) (
        rw (size, lt→ltb 0 (length text + 1) (omega arith))
          (rw (text_of-terminated text stack clean (omega (arith, room))) refl)))

-- If a line of less than 1023 bytes other than NUL stands at the front of the client's input, and
-- the calls of `send` and `recv` succeed and what is received is what was sent, then sendToServer
-- sends the line with its NUL and leaves the rest of the input, and recvFromClient shows the line.
pub message_is_shown :
    (stack_c stack_s : List ℕ) (socket_num client_socket : ℕ) (text more : List ℕ)
    (client server : Kernel) (g h : Grant) (rest_c rest_s : List (Option Grant))
    → length stack_c ≡ maxbuf
    → length stack_s ≡ maxbuf
    → length text < maxbuf - 1
    → IsText text
    → HasNoNewline text
    → client.replies ≡ some g ∷ rest_c
    → server.replies ≡ some h ∷ rest_s
    → h.bytes ≡ terminated text
    → (send_to_server stack_c socket_num (text ++ newline ∷ more) client
        ≡ ok (more, has_sent socket_num text g rest_c client))
      × (recv_from_client stack_s client_socket server
          ≡ ok (some text, has_shown client_socket text rest_s server))
message_is_shown stack_c stack_s socket_num client_socket text more client server g h rest_c rest_s
      rc rs short clean flat ec es bytes =
    (
      send_to_server_lem stack_c socket_num text more client g rest_c rc short clean flat ec,
      recv_from_client_lem stack_s client_socket text server h rest_s rs (omega arith) clean es
          bytes,
    )

pub full_message_overruns :
    (stack : List ℕ) (client_socket : ℕ) (k : Kernel) (h : Grant) (rest : List (Option Grant))
    → length stack ≡ maxbuf
    → k.replies ≡ some h ∷ rest
    → IsText h.bytes
    → length h.bytes ≡ maxbuf
    → recv_from_client stack client_socket k ≡ fault
unfolding recv_from_client
full_message_overruns stack client_socket k h rest room e clean full = rw (e) (
    rw (take_of_length_le maxbuf h.bytes (omega (arith, full))) (
      rw (lt→ltb 0 (length h.bytes) (omega (arith, full)))
        (rw (text_of-full h.bytes stack clean (omega (arith, full, room))) refl)))
