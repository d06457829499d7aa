-- ===== src/Rcopy/Delivery.antt =====
-- What the client promises of the file it writes, as an invariant of rcopy.c's receiving states. The
-- file that is sent is given by the payloads of its packets, numbered from 0; the EOF packet is the
-- last one, with no payload.
mod Tests
pub mod Entries
pub mod Inorder
pub mod Buffering
pub mod Flush
pub mod Transfer
pub mod File
use cpe464_program.Common.{
  ℕ, zero, suc, ◌+◌, ◌%◌, ◌^◌, ◌≤◌, ◌<◌, ◌≡◌, ◌≢◌, ◌⊎◌, true, some, List, [], ◌++◌, length,
  get_elem?, take, drop, Run, Ensures,
}
use cpe464_program.Checksum.{in_cksum}
use cpe464_program.Packet.{load_net32, byte_at, header_size, flag_eof}
use cpe464_program.Buffer.{CircularBuffer, BufferEntry}
use cpe464_program.Buffer.Add.{IsShaped}
use cpe464_program.Rcopy.{Rcopy, RecvState, inorder, buffering, flush, finished, zeroed}

-- The first `n` payloads, one after the other.
abbrev pub written : (ℕ → List ℕ) → ℕ → List ℕ
written payload zero = []
written payload (suc n) = written payload n ++ payload n

-- Which buffered packets can wait in a state: none in order, only later ones while buffering, and
-- perhaps the current one when a flush begins.
abbrev pub Waits : RecvState → ℕ → ℕ → Type 0
Waits inorder current seq_num = ⊥
Waits buffering current seq_num = current < seq_num
Waits flush current seq_num = current ≤ seq_num
Waits finished current seq_num = Unit {0}

module _ (payload : ℕ → List ℕ) (last : ℕ) where
  -- A valid entry at index `i` holds a packet that the client still waits to write.
  pub record IsHeld (state : RecvState) (b : CircularBuffer) (i : ℕ) (e : BufferEntry)
      : Type 0 where
    pub waits : Waits state b.current e.sequence_num
    pub bounded : e.sequence_num ≤ b.highest
    pub near : e.sequence_num < b.current + b.size
    pub placed : e.sequence_num % b.size ≡ i
    pub content : take e.data_len e.bytes ≡ payload e.sequence_num
    pub fits : e.data_len ≤ length e.bytes

  -- The output file is what the packets below the current number carry, in order, and the buffer holds
  -- nothing but packets that are still to be written.
  pub record IsFaithful (state : RecvState) (b : CircularBuffer) (out_file : List ℕ) : Type 0 where
    pub shaped : IsShaped b
    pub progress : b.current ≤ last + 1
    pub high : b.highest ≤ last
    pub file : out_file ≡ written payload b.current
    pub held :
        (i : ℕ) (e : BufferEntry)
        → get_elem? b.entries i ≡ some e
        → e.valid_flag ≡ true
        → IsHeld state b i e
    pub complete : state ≡ finished → b.current ≡ last + 1

  abbrev pub Holds : RecvState × Rcopy → Type 0
  Holds r = IsFaithful r.0 r.1.buffer r.1.out_file

  -- The packet is number `k` of the file, it fits a block, it lies within the window, and while the
  -- client is buffering it is no older than the newest packet that it has buffered.
  pub record Carries (state : RecvState) (b : CircularBuffer) (packet : List ℕ) (k : ℕ)
      : Type 0 where
    pub long : header_size ≤ length packet
    pub number : load_net32 zeroed packet 0 ≡ k
    pub content : drop header_size packet ≡ payload k
    pub in_file : k ≤ last
    pub eof : byte_at zeroed packet 6 ≡ flag_eof → k ≡ last
    pub small : length (payload k) ≤ b.buffer_size
    pub near : k < b.current + b.size
    pub ordered : state ≡ buffering → b.current < k → b.highest ≤ k

  -- A packet that arrives was damaged so that it does not verify, or it is one of the file.
  abbrev pub IsAdmissible : RecvState → CircularBuffer → List ℕ → Type 0
  IsAdmissible state b packet = (in_cksum packet ≢ 0) ⊎ ((k : ℕ) × Carries state b packet k)
