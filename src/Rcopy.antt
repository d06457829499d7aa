-- ===== src/Rcopy.antt =====
-- rcopy.c, the client that receives a file: its state machine for received packets. Printing, and the
-- flushing of the output file, have no counterpart.
pub mod Delivery
pub mod Exchange
pub mod Acks
pub mod Machine
pub mod Main
pub mod Progress
pub mod Reorder
use cpe464_program.Common.{
  Bool, List, M, Option, [], and_then, drop, exit, false, fault, get, get_elem?, if◌then◌else◌,
  incr, leb, length, ltb, none, ok, or_fault, out_of_fuel, put, return, set, slt, some, suc, take,
  true, zero, ℕ, ◌&&◌, ◌++◌, ◌==◌, ◌>>=◌, ◌>>◌,
}
use cpe464_program.Buffer.{BufferEntry, CircularBuffer, buffer_add, rem_int}
use cpe464_program.Checksum.{in_cksum}
use cpe464_program.Net.{Net, poll, safe_recvfrom, safe_sendto}
use cpe464_program.Packet.{
  build_packet, byte_at, flag_eof, header_size, load_net32, max_pdu, rr_packet, srej_packet,
}
use cpe464_program.Poll.{exit_minus_1}

-- `EXIT` is `finished`.
pub data RecvState : Type 0 where
  inorder buffering flush finished : RecvState

abbrev pub is_finished : RecvState → Bool
is_finished finished = true
is_finished _ = false

-- What the receiving side reads and changes: the socket, the buffer, the bytes written to the output
-- file, and the global variable `eof_seq_num`.
pub record Rcopy : Type 0 where
  pub net : Net
  pub buffer : CircularBuffer
  pub out_file : List ℕ
  pub eof_seq_num : ℕ

abbrev pub on_net {ℓ} : {A : Type ℓ} → M Net A → M Rcopy A
on_net m s = and_then (m s.net) λ r. ok (r.0, record s { net = r.1 })

-- The array that a packet is received into is zeroed first.
abbrev pub zeroed : ℕ → ℕ
zeroed i = 0

abbrev pub send_srej : ℕ → M Rcopy (Unit {0})
send_srej missing_seq = on_net (safe_sendto (srej_packet missing_seq))

abbrev pub send_rr : ℕ → M Rcopy (Unit {0})
send_rr next_expected_seq = on_net (safe_sendto (rr_packet next_expected_seq))

abbrev pub send_eof : M Rcopy (Unit {0})
send_eof = on_net (safe_sendto (build_packet 0 flag_eof []))

abbrev pub set_current : ℕ → Rcopy → Rcopy
set_current n s = record s { buffer = record s.buffer { current = n } }

abbrev pub set_highest : ℕ → Rcopy → Rcopy
set_highest n s = record s { buffer = record s.buffer { highest = n } }

-- `fwrite(in_packet + HEADER_SIZE, recvLen - HEADER_SIZE, 1, outFile)`. With fewer bytes than a header
-- the size wraps round, and the call reads far past the array.
abbrev pub write_payload : List ℕ → M Rcopy (Unit {0})
write_payload packet s =
    if leb header_size (length packet)
    then ok (tt, record s { out_file = s.out_file ++ drop header_size packet })
    else fault

-- `buffer_add` of the payload, whose size is `recvLen - HEADER_SIZE` too.
abbrev pub buffer_payload : ℕ → List ℕ → M Rcopy (Unit {0})
buffer_payload seq_num packet s =
    if leb header_size (length packet)
    then (and_then (buffer_add s.buffer seq_num (drop header_size packet))
        λ b. ok (tt, record s { buffer = b }))
    else fault

-- One round of the loop of `handle_flush` at a valid entry: its data are written, it is marked
-- invalid, and the next sequence number is asked for.
unfoldable pub flush_entry : ℕ → BufferEntry → M Rcopy (Unit {0})
flush_entry index entry s =
    if leb entry.data_len (length entry.bytes)
    then (let next = incr s.buffer.current in
        send_rr next (record s {
          out_file = s.out_file ++ take entry.data_len entry.bytes;
          buffer = record s.buffer {
            entries = set s.buffer.entries index (record entry { valid_flag = false });
            current = next;
          };
        }))
    else fault

-- The entry of the current sequence number.
abbrev pub current_entry : CircularBuffer → Option (ℕ × BufferEntry)
current_entry b = elim (rem_int b.current b.size) [
  | none ↦ none
  | some index ↦ elim (get_elem? b.entries index) [ none ↦ none | some e ↦ some (index, e) ]
]

unfoldable pub flush_loop : ℕ → M Rcopy (Unit {0})
flush_loop zero = λ s. out_of_fuel
flush_loop (suc fuel) = do
  s ← get
  at_current ← or_fault (current_entry s.buffer)
  if at_current.1.valid_flag
      then (flush_entry at_current.0 at_current.1 >> flush_loop fuel)
      else return tt

-- The test after the loop. `valid_flag` is read only if `current < highest`.
unfoldable pub after_flush : M Rcopy RecvState
after_flush = do
  s ← get
  if slt s.buffer.current s.buffer.highest
      then (do
        at_current ← or_fault (current_entry s.buffer)
        if at_current.1.valid_flag
            then return inorder
            else (do send_srej s.buffer.current; send_rr s.buffer.current; return buffering))
      else return inorder

-- Every round of the loop clears a valid entry, so there are at most as many rounds as entries.
unfoldable pub handle_flush : M Rcopy RecvState
unfolding flush_loop after_flush
handle_flush = do s ← get; flush_loop (suc (length s.buffer.entries)); after_flush

-- The common beginning of `handle_buffer` and `handle_inorder` for a packet that verifies.
abbrev pub note_eof : Bool → ℕ → M Rcopy (Unit {0})
note_eof is_eof seq_num s = ok (tt, if is_eof then record s { eof_seq_num = seq_num } else s)

-- The algorithm of `handle_buffer` for determining the next state.
unfoldable pub next_buffering : Bool → ℕ → List ℕ → M Rcopy RecvState
next_buffering is_eof seq_num packet = do
  s ← get
  let current = s.buffer.current
  if is_eof && slt s.eof_seq_num current
      then (send_eof >> return finished)
      else if seq_num == current
      then (do write_payload packet; t ← get; put (set_current (incr current) t); return flush)
      else if ltb current seq_num
      then (do
        buffer_payload seq_num packet
        t ← get
        put (set_highest seq_num t)
        return buffering)
      else (send_rr current >> return buffering)

-- `handle_buffer`, once the packet is received.
unfoldable pub receive_buffering : List ℕ → M Rcopy RecvState
receive_buffering packet =
    let seq_num = load_net32 zeroed packet 0 in
    let is_eof = byte_at zeroed packet 6 == flag_eof in
    if in_cksum packet == 0
    then (note_eof is_eof seq_num >> next_buffering is_eof seq_num packet)
    else return buffering

-- The algorithm of `handle_inorder` for determining the next state.
unfoldable pub next_inorder : Bool → ℕ → List ℕ → M Rcopy RecvState
next_inorder is_eof seq_num packet = do
  s ← get
  let current = s.buffer.current
  if is_eof && slt s.eof_seq_num current
      then (send_eof >> return finished)
      else if seq_num == current
      then (do
        write_payload packet
        t ← get
        put (set_current (incr current) (set_highest current t))
        send_rr (incr current)
        return inorder)
      else if ltb current seq_num
      then (do
        send_srej current
        buffer_payload seq_num packet
        t ← get
        put (set_highest seq_num t)
        return buffering)
      else (send_rr current >> return inorder)

-- `handle_inorder`, once the packet is received.
unfoldable pub receive_inorder : List ℕ → M Rcopy RecvState
receive_inorder packet =
    let seq_num = load_net32 zeroed packet 0 in
    let is_eof = byte_at zeroed packet 6 == flag_eof in
    if in_cksum packet == 0
    then (note_eof is_eof seq_num >> next_inorder is_eof seq_num packet)
    else return inorder

-- The poll for ten seconds that both handlers begin with. A time-out ends the process; another
-- descriptor than the socket leaves the state as it is.
abbrev pub on_ready : ℕ → RecvState → (List ℕ → M Rcopy RecvState) → Option ℕ → M Rcopy RecvState
on_ready sock_num stay receive none = λ s. exit exit_minus_1
on_ready sock_num stay receive (some fd) =
    if fd == sock_num then on_net (safe_recvfrom max_pdu) >>= receive else return stay

unfoldable pub handle_buffer : ℕ → M Rcopy RecvState
unfolding receive_buffering
handle_buffer sock_num = on_net poll >>= on_ready sock_num buffering receive_buffering

unfoldable pub handle_inorder : ℕ → M Rcopy RecvState
unfolding receive_inorder
handle_inorder sock_num = on_net poll >>= on_ready sock_num inorder receive_inorder

-- At `EXIT` the variable that is returned has no value.
unfoldable pub receive_data_fsm : ℕ → RecvState → M Rcopy RecvState
unfolding handle_inorder handle_buffer handle_flush
receive_data_fsm sock_num inorder = handle_inorder sock_num
receive_data_fsm sock_num buffering = handle_buffer sock_num
receive_data_fsm sock_num flush = handle_flush
receive_data_fsm sock_num finished = λ s. fault
