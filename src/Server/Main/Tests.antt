-- ===== src/Server/Main/Tests.antt =====
-- Two requests, one after the other.
use cpe464_program.Common.{
  List, Option, [], ap, arith, codes, exit, false, ok, refl, some, sym, ℕ, ◌∷◌, ◌≡◌,
}
use cpe464_program.Buffer.{Memory}
use cpe464_program.Floats.{whole_floats}
use cpe464_program.Net.{Arrival}
use cpe464_program.Numbers.{atoi, scan_digits, strtol}
use cpe464_program.Server.Main.{Fork, Parent, check_args, serve_requests}
use cpe464_program.Server.Main.Laws.{
  IsGranted, Wish, all_served, parents, serve_requests_lem, wish_arrivals,
}

abbrev wish : List ℕ → Wish
wish content = record { window_size = 5; buffer_size = 1000; name = codes "ab"; content = content }

abbrev opens : List ℕ → Option (List ℕ)
opens name = some (7 ∷ 8 ∷ [])

abbrev wishes : List Wish
wishes = wish (7 ∷ 8 ∷ []) ∷ wish (7 ∷ 8 ∷ []) ∷ []

abbrev parent : List Arrival → List Fork → Parent
parent arrivals forks = record {
  net = record {
    poll_set = record { descriptors = []; max_descriptor = 4; set_size = 10 };
    answers = [];
    arrivals = arrivals;
    sent = [];
  };
  kernel = record { replies = []; calls = []; printed = []; ip_address = [] };
  forks = forks;
  open_files = [];
  children = [];
}

abbrev memory : Memory
memory = record { fails = λ i. false; junk = λ i j. 0; junk_len = λ i. 0 }

granted : (content : List ℕ) → content ≡ 7 ∷ 8 ∷ [] → IsGranted opens (wish content)
granted content e = (omega arith, omega arith, omega arith, omega arith, ap some (sym e))

serve_requests_lem_example :
    serve_requests memory 5 5
      (λ i. 170)
      opens
      3
      2
      (parent (wish_arrivals wishes []) (parents wishes []))
    ≡ ok (tt, all_served wishes [] [] (parent (wish_arrivals wishes []) (parents wishes [])))
serve_requests_lem_example =
    serve_requests_lem memory 5 5 (λ i. 170) opens 3 wishes [] []
      (parent (wish_arrivals wishes []) (parents wishes []))
      (granted (7 ∷ 8 ∷ []) refl, (granted (7 ∷ 8 ∷ []) refl, tt)) refl refl

-- Too few arguments, an error rate above 1, and a port that is no number.
arguments :
    (check_args whole_floats (codes "server" ∷ []) ≡ exit 1)
    × (check_args whole_floats (codes "server" ∷ codes "2" ∷ []) ≡ exit 1)
    × (check_args whole_floats (codes "server" ∷ codes "0" ∷ codes "http" ∷ []) ≡ ok 0)
unfolding check_args atoi strtol scan_digits
arguments = (refl, refl, refl)
