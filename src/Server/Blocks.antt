-- ===== src/Server/Blocks.antt =====
-- server.c: the window that holds the blocks of the file.
pub mod Send
pub mod Resend
use cpe464_program.Common.{
  List, arith, drop, get_elem?, length, le→leb, ok, some, take, ℕ, ◌%◌, ◌*◌, ◌+◌, ◌<◌, ◌≡◌, ◌≤◌,
}
use cpe464_program.Buffer.{BufferEntry, CircularBuffer}
use cpe464_program.Buffer.Add.{IsShaped}
use cpe464_program.Buffer.Init.{IsInitial, IsInitial-IsShaped}
use cpe464_program.Net.{Net}
use cpe464_program.Packet.{max_payload_size, max_pdu}
use cpe464_program.Rcopy.Delivery.File.{block_of}
use cpe464_program.Server.{Server, entry_payload}

-- The child has read and sent the blocks below its current number, and the last `size` of them stand in
-- the window.
pub record IsServing (chunk_size : ℕ) (file : List ℕ) (s : Server) : Type 0 where
  pub shaped : IsShaped s.window
  pub chunk : s.window.buffer_size ≡ chunk_size
  pub rest : s.export_file ≡ drop (s.window.current * chunk_size) file
  pub stored :
      (k : ℕ)
      → k < s.window.current
      → s.window.current ≤ k + s.window.size
      → (e : BufferEntry) × (get_elem? s.window.entries (k % s.window.size) ≡ some e)
        × (take e.data_len e.bytes ≡ block_of chunk_size file k)
        × (e.data_len ≤ length e.bytes)

-- A block of at most 1400 bytes makes a packet that fits the array.
pub entry_payload_lem :
    (e : BufferEntry) (size : ℕ)
    → size ≤ length e.bytes
    → size ≤ max_payload_size
    → entry_payload e size ≡ ok (take size e.bytes)
unfolding entry_payload
entry_payload_lem e size h small =
    rw (le→leb size (length e.bytes) h, le→leb (7 + size) max_pdu (omega arith))

-- The child begins with nothing sent.
pub start-IsServing :
    (chunk_size : ℕ) (file : List ℕ) {window_size highest : ℕ} {b : CircularBuffer} (net : Net)
    → 0 < window_size
    → IsInitial window_size chunk_size highest b
    → IsServing chunk_size file (record { net = net; window = b; export_file = file })
start-IsServing chunk_size file {b = b} net pos v = record {
  shaped = IsInitial-IsShaped pos v;
  chunk = v.sizes.1;
  rest = let e : b.current * chunk_size ≡ 0 = rw v.counters.0 (omega arith) in rw e;
  stored = λ k low near. absurd (omega (arith, v.counters.0));
}

-- What the child has heard and sent has no part in the invariant.
pub IsServing-net :
    (chunk_size : ℕ) (file : List ℕ) (s : Server) (n : Net)
    → IsServing chunk_size file s
    → IsServing chunk_size file (record s { net = n })
IsServing-net chunk_size file s n v = record {
  shaped = v.shaped;
  chunk = v.chunk;
  rest = v.rest;
  stored = v.stored;
}
