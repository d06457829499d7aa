-- ===== src/Rcopy/Delivery/File.antt =====
-- The transfer of a file that the server cuts into blocks of the buffer size.
use cpe464_program.Common.{
  Ensures, Ensures-ok, Ensures-mono, List, [], ap, arith, drop, length, ok, suc, sym, take,
  take-append_drop-take, take_of_length_le, zero, ℕ, ◌*◌, ◌+◌, ◌<◌, ◌^◌, ◌∙◌, ◌≡◌, ◌≤◌,
}
use cpe464_program.Buffer.{CircularBuffer, Memory, buffer_init}
use cpe464_program.Buffer.Init.{IsInitial, IsInitial-IsShaped, buffer_init-IsInitial}
use cpe464_program.Net.{Net}
use cpe464_program.Rcopy.{Rcopy, inorder}
use cpe464_program.Rcopy.Delivery.{IsFaithful, written}
use cpe464_program.Rcopy.Delivery.Transfer.{IsComplete, RunIsAdmissible, receive_loop_lem}
use cpe464_program.Rcopy.Machine.{receive_loop}

-- The payload of packet `k`: the block that the server reads at its turn, and nothing at and after the
-- end of the file.
abbrev pub block_of : ℕ → List ℕ → ℕ → List ℕ
block_of chunk_size file k = take chunk_size (drop (k * chunk_size) file)

pub written-block_of :
    (chunk_size : ℕ) (file : List ℕ) (n : ℕ)
    → written (block_of chunk_size file) n ≡ take (n * chunk_size) file
written-block_of chunk_size file zero = let e : 0 * chunk_size ≡ 0 = omega arith in rw e
written-block_of chunk_size file (suc n) =
    let e : suc n * chunk_size ≡ n * chunk_size + chunk_size = omega arith in
    rw (
      e,
      take-append_drop-take (n * chunk_size) chunk_size file,
      written-block_of chunk_size file n,
    )

-- The state in which `rcopy_FSM` begins to receive.
abbrev pub start : CircularBuffer → Net → Rcopy
start b net = record { net = net; buffer = b; out_file = []; eof_seq_num = 0 }

pub start-IsFaithful :
    (payload : ℕ → List ℕ) (last : ℕ) {window_size chunk_size : ℕ} {b : CircularBuffer}
    → 0 < window_size
    → IsInitial window_size chunk_size 0 b
    → IsFaithful payload last inorder b []
start-IsFaithful payload last {b = b} pos v = record {
  shaped = IsInitial-IsShaped pos v;
  progress = omega (arith, v.counters);
  high = omega (arith, v.counters);
  file = ap (written payload) (sym v.counters.0);
  held = λ i e p valid. absurd (ground (arith, (v.empty i e p).0));
  complete = λ e. cc;
}

-- If buffer_init gives the client's buffer, the file has at most `last` blocks of the buffer size,
-- and every datagram that arrives is damaged or is a block of the file (packet `last` being the EOF)
-- within the window, and while the client is buffering no older than its newest buffered packet,
-- then the receive loop of rcopy_FSM, with more rounds than twice the answers of the poll, does
-- nothing undefined and ends, and if it returns the output file is the file; it may instead exit at
-- a time-out or wait for input.
pub receive_loop_delivers :
    (file : List ℕ) (chunk_size last window_size sock_num fuel : ℕ) (m : Memory)
    (b : CircularBuffer) (net : Net) (room : last + 1 < 2 ^ 31)
    → length file ≤ last * chunk_size
    → 0 < window_size
    → buffer_init m window_size chunk_size 0 ≡ ok b
    → 2 * length net.answers < fuel
    → RunIsAdmissible (block_of chunk_size file) last room sock_num fuel inorder (start b net)
    → Ensures (λ r. r.1.out_file ≡ file) (receive_loop fuel sock_num inorder (start b net))
receive_loop_delivers file chunk_size last window_size sock_num fuel m b net room fits pos made
      enough honest =
    Ensures-mono (IsComplete (block_of chunk_size file) last room sock_num)
      (λ r. r.1.out_file ≡ file) (receive_loop fuel sock_num inorder (start b net))
      (λ r e.
        e
        ∙ written-block_of chunk_size file (last + 1)
        ∙ take_of_length_le ((last + 1) * chunk_size) file (omega arith))
      (receive_loop_lem (block_of chunk_size file) last room sock_num fuel inorder (start b net)
        (omega arith) (λ e. cc)
        (start-IsFaithful (block_of chunk_size file) last pos (
          Ensures-ok (IsInitial window_size chunk_size 0) (buffer_init m window_size chunk_size 0) b
            made (buffer_init-IsInitial m window_size chunk_size 0)))
        honest)
