-- ===== src/Net/Laws.antt =====
-- What a call of the kernel changes: a poll takes one answer, a receive takes one arrival.
use cpe464_program.Common.{
  Ensures, List, [], ap, length, none, ok, refl, suc, take, ℕ, ◌∙◌, ◌∷◌, ◌≡◌,
}
use cpe464_program.Net.{
  Arrival, Net, datagram, poll, poll_next, receive_next, recv_error, safe_recvfrom,
}
use cpe464_program.Poll.{Answer, answered, failed, poll_call}

-- `n'` is `n` after one poll.
pub record IsPolled (n n' : Net) : Type 0 where
  pub one_answer : length n.answers ≡ suc (length n'.answers)
  pub same_arrivals : n'.arrivals ≡ n.arrivals
  pub same_sent : n'.sent ≡ n.sent
  pub same_poll_set : n'.poll_set ≡ n.poll_set

-- A poll takes one answer of the script and changes nothing else; it does nothing undefined.
pub poll_lem : (n : Net) → Ensures (λ r. IsPolled n r.1) (poll n)
unfolding poll
poll_lem n = go n.answers refl
  where
    go : (l : List Answer) → n.answers ≡ l → Ensures (λ r. IsPolled n r.1) (poll_next l n)
    go [] e = tt
    go (failed ∷ rest) e = unfold poll_next poll_call in tt
    go (answered value revents ∷ rest) e =
        unfold poll_next poll_call in
        record {
          one_answer = ap length e;
          same_arrivals = refl;
          same_sent = refl;
          same_poll_set = refl;
        }

-- A receive gives the next datagram, cut to the length of the buffer.
abbrev pub IsReceived : ℕ → Net → List ℕ × Net → Type 0
IsReceived len n r =
    (bytes : List ℕ) × (rest : List Arrival) × (n.arrivals ≡ datagram bytes ∷ rest)
    × (r.0 ≡ take len bytes)
    × (r.1 ≡ record n { arrivals = rest })

pub safe_recvfrom_lem : (len : ℕ) (n : Net) → Ensures (IsReceived len n) (safe_recvfrom len n)
unfolding safe_recvfrom
safe_recvfrom_lem len n = go n.arrivals refl
  where
    go : (l : List Arrival) → n.arrivals ≡ l → Ensures (IsReceived len n) (receive_next len l n)
    go [] e = tt
    go (recv_error ∷ rest) e = tt
    go (datagram bytes ∷ rest) e = (bytes, rest, e, refl, refl)

-- What a receive gives when the next arrival is known.
pub safe_recvfrom_datagram :
    (len : ℕ) (n : Net) (bytes : List ℕ) (rest : List Arrival)
    → n.arrivals ≡ datagram bytes ∷ rest
    → safe_recvfrom len n ≡ ok (take len bytes, record n { arrivals = rest })
unfolding safe_recvfrom
safe_recvfrom_datagram len n bytes rest e = ap (λ l. receive_next len l n) e ∙ first
  where
    first :
        receive_next len (datagram bytes ∷ rest) n
        ≡ ok (take len bytes, record n { arrivals = rest })
    first = refl

-- What a poll gives when the next answer is a time-out.
pub poll_timeout :
    (n : Net) (revents : List ℕ) (rest : List Answer)
    → n.answers ≡ answered 0 revents ∷ rest
    → poll n ≡ ok (none, record n { answers = rest })
unfolding poll poll_call
poll_timeout n revents rest e = ap (λ l. poll_next l n) e ∙ first
  where
    first : poll_next (answered 0 revents ∷ rest) n ≡ ok (none, record n { answers = rest })
    first = unfold poll_call in refl
