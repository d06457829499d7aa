-- ===== src/Transfer/Network/Receiver.antt =====
-- rcopy.c: what a step of the client keeps, when the server has sent packets of numbers below `n`.
use cpe464_program.Common.{
  All, Ensures-ok, List, Returns-ok, [], ap, arith, inl, inr, ok, subst, sym, take, ℕ, ◌+◌, ◌-◌,
  ◌<◌, ◌^◌, ◌∙◌, ◌∷◌, ◌≡◌, ◌≢◌, ◌≤◌,
}
use cpe464_program.Buffer.{CircularBuffer, block}
use cpe464_program.Checksum.Sum.{IsBytes}
use cpe464_program.Packet.{load_net32, max_payload_size, max_pdu}
use cpe464_program.Packet.Fields.{build_packet_fields}
use cpe464_program.Poll.{Answer}
use cpe464_program.Rcopy.{Rcopy, RecvState, finished, receive_data_fsm, zeroed}
use cpe464_program.Rcopy.Acks.{All-reply, IsAnswer, IsReply}
use cpe464_program.Rcopy.Acks.Machine.{receive_data_fsm-IsHonest}
use cpe464_program.Rcopy.Delivery.{Holds, IsAdmissible, IsFaithful}
use cpe464_program.Rcopy.Delivery.File.{block_of}
use cpe464_program.Rcopy.Delivery.Transfer.{NextIsAdmissible, receive_data_fsm-IsFaithful}
use cpe464_program.Transfer.{build_packet-IsAdmissible}
use cpe464_program.Transfer.Network.{Arrives, IsIn, IsInOrder, listening}
use cpe464_program.Transfer.Network.Sender.{IsPart}

pub All-IsIn {ℓ} :
    (P : List ℕ → Type ℓ) (sent : List (List ℕ)) (p : List ℕ) → All P sent → IsIn p sent → P p
All-IsIn P [] p a h = absurd h
All-IsIn P (q ∷ sent) p a h = elim h [
  | inl same ↦ subst P (sym same) a.0
  | inr later ↦ All-IsIn P sent p a.1 later
]

module _ (chunk_size : ℕ) (file : List ℕ) (small : chunk_size ≤ max_payload_size)
    (bytes : IsBytes file) where
  -- The output file is the first blocks, no more than were sent, and all that was sent are replies.
  pub record IsReceiving (n : ℕ) (state : RecvState) (c : Rcopy) : Type 0 where
    pub faithful : IsFaithful (block_of chunk_size file) (n - 1) state c.buffer c.out_file
    pub behind : c.buffer.current ≤ n
    pub chunk : c.buffer.buffer_size ≡ chunk_size
    pub replies : All (IsReply (state ≡ finished) c.buffer.current) c.net.sent

  pub IsReceiving-mono :
      (m n : ℕ) (state : RecvState) (c : Rcopy)
      → m ≤ n
      → state ≢ finished
      → IsReceiving m state c
      → IsReceiving n state c
  IsReceiving-mono m n state c h going v = record {
    faithful = record {
      shaped = v.faithful.shaped;
      progress = omega (arith, v.behind);
      high = omega (arith, v.faithful.high);
      file = v.faithful.file;
      held = λ i e found valid.
          let k = v.faithful.held i e found valid in
          record {
            waits = k.waits;
            bounded = k.bounded;
            near = k.near;
            placed = k.placed;
            content = k.content;
            fits = k.fits;
          };
      complete = λ e. absurd (going e);
    };
    behind = omega (arith, v.behind);
    chunk = v.chunk;
    replies = v.replies;
  }

  -- Something was sent before anything arrived.
  Arrives-pos :
      (n : ℕ) (sent : List (List ℕ)) (p : List ℕ)
      → All (IsPart chunk_size file n) sent
      → Arrives sent p
      → 0 < n
  Arrives-pos n [] p a h = elim h [
    | inl nothing ↦ absurd nothing
    | inr damaged ↦ absurd (omega (arith, damaged.0))
  ]
  Arrives-pos n (q ∷ sent) p (block, a) h = omega (arith, block.2)

  Arrives-IsAdmissible :
      (n : ℕ) (state : RecvState) (b : CircularBuffer) (sent : List (List ℕ)) (p : List ℕ)
      → n < 2 ^ 31
      → b.buffer_size ≡ chunk_size
      → n ≤ b.current + b.size
      → All (IsPart chunk_size file n) sent
      → IsInOrder state b p
      → Arrives sent p
      → IsAdmissible (block_of chunk_size file) (n - 1) state b (take max_pdu p)
  Arrives-IsAdmissible n state b sent p room chunk near blocks in_order h = elim h [
    | inr damaged ↦ inl damaged.1
    | inl was_sent ↦
        (let (k, flag, below, f, only_last, is) =
            All-IsIn (IsPart chunk_size file n) sent p blocks was_sent in
          let number =
            (build_packet_fields zeroed k flag (block_of chunk_size file k) (omega arith)).0 in
          let here : load_net32 zeroed p 0 ≡ k = ap (λ q. load_net32 zeroed q 0) is ∙ number in
          subst (λ q. IsAdmissible (block_of chunk_size file) (n - 1) state b (take max_pdu q))
            (sym is)
            ((build_packet-IsAdmissible chunk_size file (n - 1) state b k flag small bytes chunk
              (omega arith) (omega arith) (omega arith) f only_last
              (λ e later.
                subst (λ m. b.highest ≤ m) here
                  (in_order e (subst (λ m. b.current < m) (sym here) later)))).0))
  ]

  pub receives_lem :
      (sock_num n : ℕ) (state next_state : RecvState) (c d : Rcopy) (sent : List (List ℕ))
      (p : List ℕ) (a : Answer)
      → state ≢ finished
      → IsReceiving n state c
      → n < 2 ^ 31
      → n ≤ c.buffer.current + c.buffer.size
      → All (IsPart chunk_size file n) sent
      → Arrives sent p
      → IsInOrder state c.buffer p
      → receive_data_fsm sock_num state (listening a p c) ≡ ok (next_state, d)
      → IsReceiving n next_state d
        × (d.buffer.size ≡ c.buffer.size)
        × (c.buffer.current ≤ d.buffer.current)
  receives_lem sock_num n state next_state c d sent p a going v room near blocks arrived in_order
        run =
      let pos : 0 < n = Arrives-pos n sent p blocks arrived in
      let small_last : n - 1 + 1 < 2 ^ 31 = omega arith in
      let payload = block_of chunk_size file in
      let ready = listening a p c in
      let good : NextIsAdmissible payload (n - 1) small_last sock_num state ready = λ q rest e.
        subst (λ x. IsAdmissible payload (n - 1) state c.buffer (take max_pdu x)) (cc)
          (Arrives-IsAdmissible n state c.buffer sent p room v.chunk near blocks in_order
            arrived) in
      let kept =
        Ensures-ok (Holds payload (n - 1)) (receive_data_fsm sock_num state ready) (next_state, d)
          run
          (receive_data_fsm-IsFaithful payload (n - 1) small_last sock_num state ready going
            v.faithful good) in
      let honest =
        Returns-ok (IsAnswer ready) (receive_data_fsm sock_num state ready) (next_state, d) run
          (receive_data_fsm-IsHonest sock_num state ready
            (omega (arith, v.behind, v.faithful.shaped.count, v.faithful.shaped.small))) in
      (
        record {
          faithful = kept;
          behind = omega (arith, kept.progress);
          chunk = honest.sizes.1 ∙ v.chunk;
          replies =
              subst (λ l. All (IsReply (next_state ≡ finished) d.buffer.current) l)
                (sym honest.sent)
                (All-reply c.net.sent honest.replies (λ e. absurd (going e)) honest.forward
                  v.replies honest.each);
        },
        honest.sizes.0,
        honest.forward,
      )
