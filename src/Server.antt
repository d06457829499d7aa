-- ===== src/Server.antt =====
-- server.c: the child process that sends one file. Printing has no counterpart.
pub mod Blocks
pub mod Window
pub mod Overrun
pub mod Outstanding
pub mod Fuel
pub mod Patience
pub mod Heard
pub mod Reading
pub mod Persistence
pub mod Rounds
pub mod Loops
pub mod Main
pub mod Answers
pub mod Stale
pub mod Waiting
pub mod Request
mod Tests
use cpe464_program.Common.{
  Bool, List, M, Option, Run, [], and_then, drop, false, fault, get, get_elem?, if◌then◌else◌, incr,
  leb, length, ltb, none, ok, or_undefined, out_of_fuel, return, set, slt, some, suc, take, true,
  zero, ℕ, ◌%◌, ◌&&◌, ◌+◌, ◌==◌, ◌>>=◌, ◌>>◌, ◌^◌,
}
use cpe464_program.Buffer.{BufferEntry, CircularBuffer, Memory, buffer_add, buffer_init, rem_int}
use cpe464_program.Checksum.{in_cksum}
use cpe464_program.Net.{Net, poll, safe_recvfrom, safe_sendto}
use cpe464_program.Packet.{
  build_packet, byte_at, flag_data, flag_eof, flag_resent_data, flag_resent_timeout, flag_rr,
  flag_srej, header_size, load_net32, max_pdu,
}

-- What the child reads and changes: its socket, its window, and what is left of the file to read.
pub record Server : Type 0 where
  pub net : Net
  pub window : CircularBuffer
  pub export_file : List ℕ

pub data ServerState : Type 0 where
  done filename_ack send_file wait_eof_ack : ServerState

abbrev pub on_net {ℓ} : {A : Type ℓ} → M Net A → M Server A
on_net m s = and_then (m s.net) λ r. ok (r.0, record s { net = r.1 })

-- The data of an entry as they go into a packet: the first `size` bytes of its block, which must have
-- as many, into an array of `MAX_PDU` bytes. A negative length, which only an entry that was never filled
-- can have, is out of bounds here too.
unfoldable pub entry_payload : BufferEntry → ℕ → Run (List ℕ)
entry_payload e size =
    if leb size (length e.bytes) && leb (header_size + size) max_pdu
    then ok (take size e.bytes)
    else fault

-- `entries[index].data_len = n`.
abbrev pub set_data_len : ℕ → ℕ → CircularBuffer → Run CircularBuffer
set_data_len index n b =
    and_then (or_undefined (get_elem? b.entries index))
      λ e. ok (record b { entries = set b.entries index (record e { data_len = n }) })

-- `read_file_to_buffer`: `none` is the returned -1. `fread` gives what is left, at most `buffer_size`
-- bytes.
unfoldable pub read_file_to_buffer : M Server (Option ℕ)
read_file_to_buffer s =
    let sequence_num = s.window.current in
    let bytes_read = take s.window.buffer_size s.export_file in
    let rest = drop s.window.buffer_size s.export_file in
    and_then (or_undefined (rem_int sequence_num s.window.size)) λ index.
      if length bytes_read == 0
      then ok (none, record s { export_file = rest })
      else (and_then (buffer_add s.window sequence_num bytes_read) λ added.
          and_then (set_data_len index (length bytes_read) added) λ window.
            ok (some (length bytes_read), record s { window = window; export_file = rest }))

-- `send_data`, of `bytes_read` bytes.
unfoldable pub send_data : ℕ → M Server (Unit {0})
send_data bytes_read s =
    let sequence_num = s.window.current in
    and_then (or_undefined (rem_int sequence_num s.window.size)) λ index.
      and_then (or_undefined (get_elem? s.window.entries index)) λ e.
        and_then (entry_payload e bytes_read) λ payload.
          and_then (safe_sendto (build_packet sequence_num flag_data payload) s.net) λ r.
            ok
              (tt, record s { net = r.1; window = record s.window { current = incr sequence_num } })

-- `seq_num % window->size` of a `uint32_t`.
abbrev pub rem_unsigned : ℕ → ℕ → Option ℕ
rem_unsigned a b = if b == 0 then none else some (a % b)

unfoldable pub resend_packet : ℕ → ℕ → M Server (Unit {0})
unfolding entry_payload
resend_packet seq_num flag_option s =
    and_then (or_undefined (rem_unsigned seq_num s.window.size)) λ index.
      and_then (or_undefined (get_elem? s.window.entries index)) λ e.
        and_then (entry_payload e e.data_len)
          λ payload. on_net (safe_sendto (build_packet seq_num flag_option payload)) s

-- The window after an RR: `lowest` and `highest` follow the number that the RR carries.
abbrev pub move_window : ℕ → M Server (Unit {0})
move_window seq_num s = ok (
  tt,
  record s {
    window = record s.window { lowest = seq_num; highest = (seq_num + s.window.size) % 2 ^ 32 };
  },
)

-- What `process_rr_srej_eof` does with a packet that verifies: by its flag, and the number at byte 7.
unfoldable pub obey : ℕ → ℕ → M Server (Unit {0})
obey flag seq_num =
    if flag == flag_rr
    then move_window seq_num
    else if flag == flag_srej
    then resend_packet seq_num flag_resent_data
    else return tt

-- `process_rr_srej_eof`, once the packet is received: `none` is the returned -1, and `stack` is what
-- the array held behind the bytes that were received.
unfoldable pub process_packet : (ℕ → ℕ) → List ℕ → M Server (Option ℕ)
process_packet stack packet =
    let seq_num = load_net32 stack packet 7 in
    let flag = byte_at stack packet 6 in
    if in_cksum packet == 0
    then (obey flag seq_num >> return (some flag))
    else (do s ← get; resend_packet s.window.lowest flag_resent_data; return none)

unfoldable pub process_rr_srej_eof : (ℕ → ℕ) → M Server (Option ℕ)
unfolding process_packet
process_rr_srej_eof stack = on_net (safe_recvfrom max_pdu) >>= process_packet stack

unfoldable pub send_eof : M Server (Unit {0})
send_eof = do s ← get; on_net (safe_sendto (build_packet s.window.current flag_eof []))

-- Whether a call returned the number; `none` is -1.
abbrev pub returned : ℕ → Option ℕ → Bool
returned socket_num none = false
returned socket_num (some fd) = fd == socket_num

-- `while (pollCall(0) == socketNum) process_rr_srej_eof(...)`.
unfoldable pub drain_loop : ℕ → (ℕ → ℕ) → ℕ → M Server (Unit {0})
drain_loop zero stack socket_num = λ s. out_of_fuel
drain_loop (suc fuel) stack socket_num = do
  ready ← on_net poll
  if returned socket_num ready
      then (do flag ← process_rr_srej_eof stack; drain_loop fuel stack socket_num)
      else return tt

abbrev pub is_timeout : Option ℕ → Bool
is_timeout none = true
is_timeout (some fd) = false

-- What the loop does with the result of `read_file_to_buffer`: whether the file is at its end.
abbrev pub send_read : Option ℕ → M Server Bool
send_read none = return true
send_read (some read_bytes) = send_data read_bytes >> return false

-- The first loop of `handle_send_data`: `true` is the return at the end of the file.
unfoldable pub send_loop : ℕ → (ℕ → ℕ) → ℕ → M Server Bool
send_loop zero stack socket_num = λ s. out_of_fuel
send_loop (suc fuel) stack socket_num = do
  s ← get
  if slt s.window.current s.window.highest
      then (do
        read_bytes ← read_file_to_buffer
        sent_all ← send_read read_bytes
        if sent_all
            then return true
            else (drain_loop (suc fuel) stack socket_num >> send_loop fuel stack socket_num))
      else return false

-- The second loop, while the window is full: `true` is the return after ten time-outs.
unfoldable pub wait_loop : ℕ → (ℕ → ℕ) → ℕ → ℕ → M Server Bool
wait_loop zero stack socket_num attempts = λ s. out_of_fuel
wait_loop (suc fuel) stack socket_num attempts = do
  s ← get
  if s.window.current == s.window.highest
      then (do
        ready ← on_net poll
        if is_timeout ready
            then (if leb 10 (attempts + 1) then return true else (do
              resend_packet s.window.lowest flag_resent_timeout
              wait_loop fuel stack socket_num (attempts + 1)))
            else if returned socket_num ready
            then (do flag ← process_rr_srej_eof stack; wait_loop fuel stack socket_num attempts)
            else wait_loop fuel stack socket_num attempts)
      else return false

unfoldable pub handle_send_data : ℕ → (ℕ → ℕ) → ℕ → M Server ServerState
unfolding send_loop wait_loop
handle_send_data fuel stack socket_num = do
  at_end ← send_loop fuel stack socket_num
  if at_end then return wait_eof_ack else (do
    timed_out ← wait_loop fuel stack socket_num 0
    if timed_out then return done else return send_file)

-- `handle_wait_EOF_ack`: any descriptor that is ready counts as the socket.
unfoldable pub eof_loop : ℕ → (ℕ → ℕ) → ℕ → M Server ServerState
eof_loop zero stack attempt = λ s. out_of_fuel
eof_loop (suc fuel) stack attempt =
    if ltb attempt 10
    then (do
      send_eof
      ready ← on_net poll
      if is_timeout ready then eof_loop fuel stack (attempt + 1) else (do
        flag ← process_rr_srej_eof stack
        if returned flag_eof flag then return done else eof_loop fuel stack 0))
    else return done

unfoldable pub handle_wait_eof_ack : ℕ → (ℕ → ℕ) → M Server ServerState
unfolding eof_loop
handle_wait_eof_ack fuel stack = eof_loop fuel stack 0

-- The child's loop of `server_FSM`.
unfoldable pub child_loop : ℕ → ℕ → (ℕ → ℕ) → ℕ → ServerState → M Server (Unit {0})
child_loop zero inner stack socket_num state = λ s. out_of_fuel
child_loop (suc fuel) inner stack socket_num done = return tt
child_loop (suc fuel) inner stack socket_num send_file =
    handle_send_data inner stack socket_num >>= child_loop fuel inner stack socket_num
child_loop (suc fuel) inner stack socket_num wait_eof_ack =
    handle_wait_eof_ack inner stack >>= child_loop fuel inner stack socket_num
child_loop (suc fuel) inner stack socket_num filename_ack =
    child_loop fuel inner stack socket_num done

-- The child process from the fork on. The window is made with `highest` at the buffer size.
unfoldable pub child : Memory → ℕ → ℕ → (ℕ → ℕ) → ℕ → ℕ → ℕ → List ℕ → Net → Run (Unit {0} × Server)
unfolding child_loop handle_send_data handle_wait_eof_ack
child memory fuel inner stack socket_num window_size buffer_size export_file net =
    and_then (buffer_init memory window_size buffer_size buffer_size) λ w.
      child_loop fuel inner stack socket_num send_file
        (record { net = net; window = w; export_file = export_file })
