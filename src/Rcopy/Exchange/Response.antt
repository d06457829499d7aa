-- ===== src/Rcopy/Exchange/Response.antt =====
-- rcopy.c: what one attempt of `filename_exchange` does with what arrives.
use cpe464_program.Common.{
  ==→ne, Bool-cases, Ensures, Ensures-and_then, Ensures-mono, List, Option, [], arith, false,
  get_or, inl, inr, length, ne→==, none, refl, some, subst, suc, sym, take, true, zero, ℕ, ◌==◌,
  ◌∷◌, ◌≡◌, ◌≤◌,
}
use cpe464_program.Checksum.{in_cksum}
use cpe464_program.Net.{Arrival, datagram, recv_error, safe_recvfrom}
use cpe464_program.Net.Laws.{IsReceived, safe_recvfrom_lem}
use cpe464_program.Packet.{byte_at, flag_filename_ack, flag_filename_error, max_pdu}
use cpe464_program.Rcopy.{Rcopy}
use cpe464_program.Rcopy.Delivery.Transfer.{Ensures-on_net}
use cpe464_program.Rcopy.Exchange.{
  is_terminated, on_response, process_filename_response, take_response,
}

-- A datagram of which a NUL stands among the bytes that are received.
abbrev pub HasNul : List ℕ → Type 0
HasNul bytes = is_terminated max_pdu (byte_at (λ i. 1) (take max_pdu bytes)) ≡ true

-- The first `left` arrivals are such datagrams, as far as they are no errors.
abbrev pub HaveNuls : ℕ → List Arrival → Type 0
HaveNuls zero arrivals = Unit {0}
HaveNuls (suc left) [] = Unit {0}
HaveNuls (suc left) (datagram bytes ∷ arrivals) = HasNul bytes × HaveNuls left arrivals
HaveNuls (suc left) (recv_error ∷ arrivals) = HaveNuls left arrivals

HaveNuls-fewer :
    (left : ℕ) (arrivals : List Arrival) → HaveNuls (suc left) arrivals → HaveNuls left arrivals
HaveNuls-fewer zero arrivals h = tt
HaveNuls-fewer (suc left) [] h = tt
HaveNuls-fewer (suc left) (datagram bytes ∷ arrivals) h = (h.0, HaveNuls-fewer left arrivals h.1)
HaveNuls-fewer (suc left) (recv_error ∷ arrivals) h = HaveNuls-fewer left arrivals h

is_terminated_mono :
    (n : ℕ) (f g : ℕ → ℕ)
    → ((i : ℕ) → f i ≡ 0 → g i ≡ 0)
    → is_terminated n f ≡ true
    → is_terminated n g ≡ true
unfolding is_terminated
is_terminated_mono zero f g h e = e
is_terminated_mono (suc n) f g h e = elim (Bool-cases (g 0 == 0)) [
  | inl stands ↦ rw stands refl
  | inr other ↦
      (let apart : (f 0 == 0) ≡ false = ne→== (f 0) 0 (λ z. ==→ne (g 0) 0 other (h 0 z)) in
        rw other
          (is_terminated_mono n (λ i. f (suc i)) (λ i. g (suc i)) (λ i. h (suc i)) (rw apart at e)))
]

byte_at-zero : (bytes : List ℕ) (i d : ℕ) → get_or bytes i 1 ≡ 0 → get_or bytes i d ≡ 0
byte_at-zero [] i d e = absurd (omega (arith, e))
byte_at-zero (b ∷ bytes) zero d e = e
byte_at-zero (b ∷ bytes) (suc i) d e = byte_at-zero bytes i d e

process_filename_response_keeps :
    (array : ℕ → ℕ) (packet : List ℕ) (t : Rcopy)
    → Ensures (λ r. r.1 ≡ t) (process_filename_response array packet t)
unfolding process_filename_response
process_filename_response_keeps array packet t =
    let flag = byte_at array packet 6 in
    elim (Bool-cases (in_cksum packet == 0)) [
      | inr bad ↦ rw bad refl
      | inl good ↦ elim (Bool-cases (flag == flag_filename_error)) [
        | inl missing ↦ rw (good, missing) tt
        | inr found ↦ elim (Bool-cases (flag == flag_filename_ack)) [
          | inl acknowledged ↦ rw (good, found, acknowledged) refl
          | inr other ↦ rw (good, found, other) refl
        ]
      ]
    ]

take_response_keeps :
    (array : ℕ → ℕ) (bytes : List ℕ) (t : Rcopy)
    → HasNul bytes
    → Ensures (λ r. r.1 ≡ t) (take_response array (take max_pdu bytes) t)
unfolding take_response
take_response_keeps array bytes t nul =
    let packet = take max_pdu bytes in
    rw
      (is_terminated_mono max_pdu (byte_at (λ i. 1) packet) (byte_at array packet)
        (λ i e. byte_at-zero packet i (array i) e) nul)
      (Ensures-and_then (λ r. r.1 ≡ t) (λ r. r.1 ≡ t) (process_filename_response array packet t) _
        (process_filename_response_keeps array packet t) λ r e. e)

-- Only the socket was used: nothing was sent, no more polls are left than before, and the next arrivals have
-- NULs still.
pub record IsResponse (left : ℕ) (s t : Rcopy) : Type 0 where
  pub only : t ≡ record s { net = t.net }
  pub answers : length t.net.answers ≤ length s.net.answers
  pub sent : t.net.sent ≡ s.net.sent
  pub nuls : HaveNuls left t.net.arrivals

pub on_response-IsResponse :
    (left : ℕ) (array : ℕ → ℕ) (sock_num : ℕ) (ready : Option ℕ) (s : Rcopy)
    → HaveNuls (suc left) s.net.arrivals
    → Ensures (λ r. IsResponse left s r.1) (on_response array sock_num ready s)
unfolding on_response
on_response-IsResponse left array sock_num none s nuls = record {
  only = refl;
  answers = omega arith;
  sent = refl;
  nuls = HaveNuls-fewer left s.net.arrivals nuls;
}
on_response-IsResponse left array sock_num (some fd) s nuls = elim (Bool-cases (fd == sock_num)) [
  | inr other ↦ rw other tt
  | inl ours ↦ rw ours (
      Ensures-on_net (IsReceived max_pdu s.net) (λ r. IsResponse left s r.1) (safe_recvfrom max_pdu)
        s (take_response array) (safe_recvfrom_lem max_pdu s.net)
        λ packet n (bytes, rest, arrived, cut, after).
          let next_nuls = subst (HaveNuls (suc left)) arrived nuls in
          let same : record s.net { arrivals = rest } ≡ n = sym after in
          let done : IsResponse left s (record s { net = record s.net { arrivals = rest } }) =
            record { only = refl; answers = omega arith; sent = refl; nuls = next_nuls.1 } in
          Ensures-mono (λ r. r.1 ≡ record s { net = n }) (λ r. IsResponse left s r.1)
            (take_response array packet (record s { net = n }))
            (λ r e.
              subst (IsResponse left s) (sym e)
                (subst (λ m. IsResponse left s (record s { net = m })) same done))
            (subst
              (λ p.
                Ensures (λ r. r.1 ≡ record s { net = n })
                  (take_response array p (record s { net = n })))
              (sym cut) (take_response_keeps array bytes (record s { net = n }) next_nuls.0)))
]
