-- ===== src/Server/Request.antt =====
-- server.c: the request that the listening socket waits for, and the child process that a request starts.
-- The directory that `fopen` looks into is an argument.
pub mod Fields
pub mod Laws
mod Tests
use cpe464_program.Common.{
  List, M, Option, Run, [], and_then, drop, fault, if◌then◌else◌, leb, length, none, return, some,
  suc, take, zero, ℕ, ◌==◌, ◌>>=◌, ◌>>◌, ◌∷◌,
}
use cpe464_program.Buffer.{Memory}
use cpe464_program.Checksum.{in_cksum}
use cpe464_program.Net.{Net, safe_recvfrom, safe_sendto}
use cpe464_program.Packet.{
  build_packet, byte_at, flag_filename_ack, flag_filename_error, load_net32, max_pdu,
}
use cpe464_program.Poll.{add_to_poll_set, remove_from_poll_set}
use cpe464_program.Server.{Server, child}

-- What the parent gives to a child: the opened file, and the two sizes that the client asks for.
pub record Request : Type 0 where
  pub export_file : List ℕ
  pub window_size : ℕ
  pub buffer_size : ℕ

-- The string in an array: what stands before the first NUL.
abbrev pub c_string : List ℕ → List ℕ
c_string [] = []
c_string (b ∷ bytes) = let rest = c_string bytes in if b == 0 then [] else b ∷ rest

abbrev pub max_filename_size : ℕ
max_filename_size = 100

abbrev pub send_filename_ack : M Net (Unit {0})
send_filename_ack = safe_sendto (build_packet 0 flag_filename_ack [])

abbrev pub send_filename_error : M Net (Unit {0})
send_filename_error = safe_sendto (build_packet 0 flag_filename_error [])

-- What `processFilenameAck` does with the file that `fopen` gives.
unfoldable pub answer_request : ℕ → ℕ → Option (List ℕ) → M Net (Option Request)
answer_request window_size buffer_size none = send_filename_error >> return none
answer_request window_size buffer_size (some content) =
    send_filename_ack
    >> return (
        some
          (record { export_file = content; window_size = window_size; buffer_size = buffer_size }))

-- A packet that verifies. With fewer bytes than the two sizes take, the length of the name is negative:
-- `strncpy` takes it as a huge one and writes past the array.
unfoldable pub read_request : (List ℕ → Option (List ℕ)) → (ℕ → ℕ) → List ℕ → M Net (Option Request)
unfolding answer_request
read_request opens stack packet =
    let window_size = load_net32 stack packet 7 in
    let buffer_size = load_net32 stack packet 11 in
    if leb 15 (length packet)
    then answer_request window_size buffer_size
        (opens (c_string (take max_filename_size (drop 15 packet))))
    else λ s. fault

-- The loop of `processFilenameAck`, with `left` attempts left. It waits for as long as nothing comes. A
-- packet that does not verify stays in the array behind the next one.
unfoldable pub request_loop : ℕ → (List ℕ → Option (List ℕ)) → (ℕ → ℕ) → M Net (Option Request)
unfolding read_request
request_loop zero opens stack = return none
request_loop (suc left) opens stack = do
  packet ← safe_recvfrom max_pdu
  if in_cksum packet == 0
      then read_request opens stack packet
      else request_loop left opens (byte_at stack packet)

unfoldable pub process_filename_ack : (List ℕ → Option (List ℕ)) → (ℕ → ℕ) → M Net (Option Request)
unfolding request_loop
process_filename_ack opens stack = request_loop 10 opens stack

-- The child of the fork of `server_FSM`: it watches a socket of its own in place of the listening one,
-- makes its window and sends the file.
unfoldable pub child_process :
    Memory → ℕ → ℕ → (ℕ → ℕ) → ℕ → ℕ → Request → Net → Run (Unit {0} × Server)
unfolding child
child_process memory fuel inner stack socket_num child_socket q net =
    and_then (remove_from_poll_set socket_num net.poll_set) λ left.
      and_then (add_to_poll_set child_socket left) λ watched.
        child memory fuel inner stack child_socket q.window_size q.buffer_size q.export_file
          (record net { poll_set = watched })
