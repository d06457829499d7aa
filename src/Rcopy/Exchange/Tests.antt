-- ===== src/Rcopy/Exchange/Tests.antt =====
-- A client that asks for the file "a".
use cpe464_program.Common.{Ensures, List, [], arith, replicate, ℕ, ◌<◌, ◌∷◌, ◌≡◌, ◌≤◌, ◌⊎◌}
use cpe464_program.Packet.{filename_packet}
use cpe464_program.Poll.{Answer, answered}
use cpe464_program.Rcopy.{Rcopy}
use cpe464_program.Rcopy.Exchange.{Args, done, filename_exchange, receive_data}
use cpe464_program.Rcopy.Exchange.Laws.{filename_exchange_lem}

abbrev args : Args
args = record { from_file = 97 ∷ []; window_size = 5; buffer_size = 1000 }

abbrev asking : List Answer → Rcopy
asking answers = record {
  net = record {
    poll_set = record { descriptors = []; max_descriptor = 0; set_size = 0 };
    answers = answers;
    arrivals = [];
    sent = [];
  };
  buffer = record {
    entries = [];
    highest = 0;
    lowest = 0;
    current = 0;
    size = 5;
    buffer_size = 1000;
  };
  out_file = [];
  eof_seq_num = 0;
}

filename_exchange_lem_example :
    Ensures
      (λ r.
        (k : ℕ) × (k ≤ 10)
        × (r.1.net.sent ≡ replicate k (filename_packet 5 1000 (97 ∷ [])))
        × (((r.0 ≡ done) × (k ≡ 10)) ⊎ ((r.0 ≡ receive_data) × (0 < k))))
      (filename_exchange (λ i. 170) 3 args (asking (replicate 10 (answered 0 []))))
filename_exchange_lem_example =
    filename_exchange_lem (λ i. 170) 3 args (asking (replicate 10 (answered 0 []))) (omega arith) tt
