-- ===== src/Transfer/Lockstep.antt =====
-- The two programs on a network that loses and delays nothing: rounds of one block and its RR.
mod Tests
use cpe464_program.Common.{
  Ensures-ok, List, Option, [], ap, ap₂, arith, drop, false, length, length-take, ok, refl, slt,
  slt_of_lt, some, suc, take, true, zero, ℕ, ◌%◌, ◌*◌, ◌++◌, ◌+◌, ◌<◌, ◌>>=◌, ◌^◌, ◌∙◌, ◌∷◌, ◌≡◌,
  ◌≤◌,
}
use cpe464_program.Buffer.{CircularBuffer, Memory, block, buffer_init}
use cpe464_program.Buffer.Init.{IsInitial, buffer_init-IsInitial}
use cpe464_program.Checksum.Sum.{IsBytes}
use cpe464_program.Net.{Net}
use cpe464_program.Packet.{build_packet, flag_data, flag_rr, max_payload_size, rr_packet}
use cpe464_program.Packet.Fields.{build_packet_fields, control_packet_fields}
use cpe464_program.Packet.Layout.{build_packet_verifies, control_packet_verifies}
use cpe464_program.Rcopy.{Rcopy, inorder, receive_inorder, zeroed}
use cpe464_program.Rcopy.Delivery.{written}
use cpe464_program.Rcopy.Delivery.File.{block_of, start, written-block_of}
use cpe464_program.Server.{Server, process_packet, read_file_to_buffer, send_read}
use cpe464_program.Server.Answers.{IsServing-move}
use cpe464_program.Server.Blocks.{IsServing, start-IsServing}
use cpe464_program.Server.Blocks.Send.{send_next}
use cpe464_program.Server.Window.{process_packet_rr}
use cpe464_program.Transfer.{IsBytes-block_of}
use cpe464_program.Transfer.Stale.{receive_inorder-writes}

-- One round: the window of the server is open and it sends a block, the client receives it and replies, and
-- the server takes the reply.
pub data Round (stack : ℕ → ℕ) : Server → Rcopy → Server → Rcopy → Type 0 where
  block_and_rr :
      {s s₁ s₂ : Server} {c c' : Rcopy} (sent reply : List ℕ) (flag : Option ℕ)
      → slt s.window.current s.window.highest ≡ true
      → (read_file_to_buffer >>= send_read) s ≡ ok (false, s₁)
      → s₁.net.sent ≡ s.net.sent ++ (sent ∷ [])
      → receive_inorder sent c ≡ ok (inorder, c')
      → c'.net.sent ≡ c.net.sent ++ (reply ∷ [])
      → process_packet stack reply s₁ ≡ ok (flag, s₂)
      → Round stack s c s₂ c'

-- `n` rounds, the last one first.
pub data Rounds (stack : ℕ → ℕ) (s : Server) (c : Rcopy) : ℕ → Server → Rcopy → Type 0 where
  no_round : Rounds stack s c 0 s c
  one_more :
      {n : ℕ} {s' s'' : Server} {c' c'' : Rcopy}
      → Rounds stack s c n s' c'
      → Round stack s' c' s'' c''
      → Rounds stack s c (suc n) s'' c''

module _ (chunk_size : ℕ) (file : List ℕ) (small : chunk_size ≤ max_payload_size)
    (bytes : IsBytes file) (window_size : ℕ) where
  -- Both programs stand before block `n`.
  pub record InStep (n : ℕ) (s : Server) (c : Rcopy) : Type 0 where
    pub serving : IsServing chunk_size file s
    pub size : s.window.size ≡ window_size
    pub lowest : s.window.lowest ≡ n
    pub current : s.window.current ≡ n
    pub highest : (n < s.window.highest) × (s.window.highest < 2 ^ 31)
    pub expected : c.buffer.current ≡ n
    pub out_file : c.out_file ≡ written (block_of chunk_size file) n

  Round-InStep :
      (stack : ℕ → ℕ) (n : ℕ) (s : Server) (c : Rcopy)
      → InStep n s c
      → n + window_size + 1 < 2 ^ 31
      → 0 < length (block_of chunk_size file n)
      → (s' : Server) × (c' : Rcopy) × Round stack s c s' c' × InStep (suc n) s' c'
  Round-InStep stack n s c v room more =
      let here : ℕ = s.window.current in
      let block = block_of chunk_size file here in
      let sent = build_packet here flag_data block in
      let not_empty : 0 < length block = rw v.current more in
      let (s₁, sends, w, up, kept, out) =
        send_next chunk_size file small s v.serving (omega (arith, v.current)) not_empty in
      let short : length block ≤ chunk_size =
        omega (arith, length-take chunk_size (drop (here * chunk_size) file)) in
      let (number, marked, content, long) =
        build_packet_fields zeroed here flag_data block (omega (arith, v.current)) in
      let (c', received, wrote, advanced, replied) =
        receive_inorder-writes sent c
          (build_packet_verifies here flag_data block (omega arith)
            (IsBytes-block_of chunk_size file here bytes) (omega arith))
          (λ e. omega arith) (omega (arith, number, v.current, v.expected)) (omega arith)
          (omega (arith, v.expected)) in
      let k : ℕ = c.buffer.current + 1 in
      let (srej_number, rr_number, srej_flag, rr_marked) =
        control_packet_fields stack k (omega (arith, v.expected)) in
      let obeys =
        process_packet_rr stack (rr_packet k) k s₁ (control_packet_verifies k).1 rr_marked
          rr_number in
      (
        record s₁ {
          window = record s₁.window { lowest = k; highest = (k + s₁.window.size) % 2 ^ 32 };
        },
        c',
        block_and_rr sent (rr_packet k) (some flag_rr)
            (slt_of_lt here s.window.highest v.highest.1 (omega (arith, v.highest, v.current)))
            sends out received replied obeys,
        record {
          serving = IsServing-move chunk_size file s₁ k ((k + s₁.window.size) % 2 ^ 32) w;
          size = kept.2 ∙ v.size;
          lowest = omega (arith, v.expected);
          current = omega (arith, up, v.current);
          highest = (
            omega (arith, v.expected, kept.2, v.size, w.shaped.nonempty),
            omega (arith, v.expected, kept.2, v.size),
          );
          expected = omega (arith, advanced, v.expected);
          out_file =
              wrote
              ∙ ap₂ (λ a b. a ++ b) v.out_file (content ∙ ap (block_of chunk_size file) v.current);
        },
      )

  Rounds-InStep :
      (stack : ℕ → ℕ) (n : ℕ) (s : Server) (c : Rcopy)
      → InStep 0 s c
      → n + window_size < 2 ^ 31
      → ((k : ℕ) → k < n → 0 < length (block_of chunk_size file k))
      → (s' : Server) × (c' : Rcopy) × Rounds stack s c n s' c' × InStep n s' c'
  Rounds-InStep stack zero s c v room more = (s, c, no_round, v)
  Rounds-InStep stack (suc n) s c v room more =
      let (s', c', rounds, w) =
        Rounds-InStep stack n s c v (omega arith) (λ k h. more k (omega arith)) in
      let (s'', c'', last, w') =
        Round-InStep stack n s' c' w (omega arith) (more n (omega arith)) in
      (s'', c'', one_more rounds last, w')

  -- On a network that loses and delays nothing the two programs move the file in step: from the
  -- buffers that buffer_init gives them, with a file of bytes, at least one block left before each
  -- of `n` rounds, blocks of at most 1400 bytes and `n` and the window together below the largest
  -- int, there are `n` rounds, in each of which the server's window is open and it sends one block,
  -- the client receives it in order and replies, and the server takes the reply; after them the
  -- output file is the first `n` blocks of the file, and both programs stand at number `n` with
  -- nothing outstanding.
  pub lockstep_delivers :
      (stack : ℕ → ℕ) (n : ℕ) (m m' : Memory) (w w' : CircularBuffer) (net net' : Net)
      → 0 < window_size
      → 0 < chunk_size
      → n + window_size < 2 ^ 31
      → ((k : ℕ) → k < n → 0 < length (block_of chunk_size file k))
      → buffer_init m window_size chunk_size chunk_size ≡ ok w
      → buffer_init m' window_size chunk_size 0 ≡ ok w'
      → let s : Server = record { net = net; window = w; export_file = file } in
        (s' : Server) × (c' : Rcopy) × Rounds stack s (start w' net') n s' c'
        × (c'.out_file ≡ take (n * chunk_size) file)
        × (c'.buffer.current ≡ n)
        × (s'.window.current ≡ n)
        × (s'.window.lowest ≡ n)
  lockstep_delivers stack n m m' w w' net net' pos wide room more made made' =
      let v =
        Ensures-ok (IsInitial window_size chunk_size chunk_size)
          (buffer_init m window_size chunk_size chunk_size) w made
          (buffer_init-IsInitial m window_size chunk_size chunk_size) in
      let v' =
        Ensures-ok (IsInitial window_size chunk_size 0) (buffer_init m' window_size chunk_size 0) w'
          made' (buffer_init-IsInitial m' window_size chunk_size 0) in
      let s : Server = record { net = net; window = w; export_file = file } in
      let (s', c', rounds, x) =
        Rounds-InStep stack n s (start w' net')
          (record {
            serving = start-IsServing chunk_size file net pos v;
            size = v.sizes.0;
            lowest = v.counters.1;
            current = v.counters.0;
            highest = (omega (arith, v.counters), omega (arith, v.counters));
            expected = v'.counters.0;
            out_file = refl;
          })
          room more in
      (
        s',
        c',
        rounds,
        x.out_file ∙ written-block_of chunk_size file n,
        x.expected,
        x.current,
        x.lowest,
      )
