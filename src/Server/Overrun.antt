-- ===== src/Server/Overrun.antt =====
-- server.c: the first window of a child, whose end is the size of a block.
use cpe464_program.Common.{List, ℕ, ◌+◌, ◌≡◌, ◌≤◌}
use cpe464_program.Net.{Net}
use cpe464_program.Packet.{max_payload_size}
use cpe464_program.Poll.{Answer}
use cpe464_program.Server.{Server}
use cpe464_program.Server.Blocks.{IsServing}

module _ (chunk_size : ℕ) (file : List ℕ) (small : chunk_size ≤ max_payload_size) where
  -- `t` is `s` after `n` more blocks were sent, with `rest` of the script left.
  record IsAhead (s : Server) (n : ℕ) (rest : List Answer) (t : Server) : Type 0 where
    serving : IsServing chunk_size file t
    current : t.window.current ≡ s.window.current + n
    counters :
        (t.window.lowest ≡ s.window.lowest)
        × (t.window.highest ≡ s.window.highest)
        × (t.window.size ≡ s.window.size)
    answers : t.net.answers ≡ rest
