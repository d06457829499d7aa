-- ===== src/Rcopy/Progress.antt =====
-- The input that the receiving states of rcopy.c use up.
use cpe464_program.Common.{
  Bool, Bool-cases, Ensures, Ensures→Returns, List, M, Option, Option-cases, Returns,
  Returns-and_then, Returns-trivial, Returns-mono, ap, arith, drop, false, if◌then◌else◌, incr, inl,
  inr, leb, length, ltb, none, ok, or_fault, refl, return, slt, some, subst, suc, true, zero, ℕ,
  ◌&&◌, ◌*◌, ◌+◌, ◌<◌, ◌==◌, ◌>>=◌, ◌>>◌, ◌∙◌, ◌≡◌, ◌≤◌,
}
use cpe464_program.Buffer.{BufferEntry, buffer_add}
use cpe464_program.Checksum.{in_cksum}
use cpe464_program.Net.{Net, poll, safe_recvfrom, safe_sendto}
use cpe464_program.Net.Laws.{IsPolled, IsReceived, poll_lem, safe_recvfrom_lem}
use cpe464_program.Packet.{byte_at, flag_eof, header_size, load_net32, max_pdu}
use cpe464_program.Rcopy.{
  Rcopy, RecvState, after_flush, buffer_payload, buffering, current_entry, finished, flush,
  flush_entry, flush_loop, handle_flush, inorder, next_buffering, next_inorder, note_eof, on_net,
  on_ready, receive_buffering, receive_data_fsm, receive_inorder, send_eof, send_rr, send_srej,
  set_current, set_highest, write_payload, zeroed,
}

-- What a piece of the program keeps: the answers that are still to come.
abbrev Keeps {ℓ} : {A : Type ℓ} → M Rcopy A → Type 0
Keeps m = (s : Rcopy) → Returns (λ r. r.1.net.answers ≡ s.net.answers) (m s)

module _ {ℓ κ} {A : Type ℓ} {B : Type κ} where
  Keeps-bind :
      (m : M Rcopy A) (f : A → M Rcopy B) → Keeps m → ((a : A) → Keeps (f a)) → Keeps (m >>= f)
  Keeps-bind m f km kf s =
      Returns-and_then (λ r. r.1.net.answers ≡ s.net.answers) (λ r. r.1.net.answers ≡ s.net.answers)
        (m s) (λ r. f r.0 r.1) (km s)
        (λ r e. subst (λ l. Returns (λ q. q.1.net.answers ≡ l) (f r.0 r.1)) e (kf r.0 r.1))

module _ {ℓ} {A : Type ℓ} where
  Keeps-if : (b : Bool) (m m' : M Rcopy A) → Keeps m → Keeps m' → Keeps (if b then m else m')
  Keeps-if true m m' k k' = k
  Keeps-if false m m' k k' = k'

safe_sendto-Keeps : (packet : List ℕ) → Keeps (on_net (safe_sendto packet))
unfolding safe_sendto
safe_sendto-Keeps packet s = refl

write_payload-Keeps : (packet : List ℕ) → Keeps (write_payload packet)
write_payload-Keeps packet s = elim (Bool-cases (leb header_size (length packet))) [
  | inl long ↦ rw long refl
  | inr short ↦ rw short tt
]

buffer_payload-Keeps : (n : ℕ) (packet : List ℕ) → Keeps (buffer_payload n packet)
buffer_payload-Keeps n packet s = elim (Bool-cases (leb header_size (length packet))) [
  | inl long ↦ rw long (
      Returns-and_then (λ b. Unit {0}) (λ r. r.1.net.answers ≡ s.net.answers)
        (buffer_add s.buffer n (drop header_size packet)) _
        (Returns-trivial (buffer_add s.buffer n (drop header_size packet))) (λ b u. refl))
  | inr short ↦ rw short tt
]

next_inorder-Keeps :
    (is_eof : Bool) (n : ℕ) (packet : List ℕ) → Keeps (next_inorder is_eof n packet)
unfolding next_inorder
next_inorder-Keeps is_eof n packet s =
    Keeps-if (is_eof && slt s.eof_seq_num s.buffer.current) _ _
      (Keeps-bind send_eof _ (safe_sendto-Keeps _) (λ u t. refl))
      (Keeps-if (n == s.buffer.current) _ _
        (Keeps-bind (write_payload packet) _ (write_payload-Keeps packet) (λ u t.
          Keeps-bind (send_rr (incr s.buffer.current)) _ (safe_sendto-Keeps _) (λ v w. refl)
            (set_current (incr s.buffer.current) (set_highest s.buffer.current t))))
        (Keeps-if (ltb s.buffer.current n) _ _
          (Keeps-bind (send_srej s.buffer.current) _ (safe_sendto-Keeps _) (λ u.
            Keeps-bind (buffer_payload n packet) _ (buffer_payload-Keeps n packet) (λ v t. refl)))
          (Keeps-bind (send_rr s.buffer.current) _ (safe_sendto-Keeps _) (λ u t. refl))))
      s

next_buffering-Keeps :
    (is_eof : Bool) (n : ℕ) (packet : List ℕ) → Keeps (next_buffering is_eof n packet)
unfolding next_buffering
next_buffering-Keeps is_eof n packet s =
    Keeps-if (is_eof && slt s.eof_seq_num s.buffer.current) _ _
      (Keeps-bind send_eof _ (safe_sendto-Keeps _) (λ u t. refl))
      (Keeps-if (n == s.buffer.current) _ _
        (Keeps-bind (write_payload packet) _ (write_payload-Keeps packet) (λ u t. refl))
        (Keeps-if (ltb s.buffer.current n) _ _
          (Keeps-bind (buffer_payload n packet) _ (buffer_payload-Keeps n packet) (λ v t. refl))
          (Keeps-bind (send_rr s.buffer.current) _ (safe_sendto-Keeps _) (λ u t. refl))))
      s

note_eof-Keeps : (is_eof : Bool) (n : ℕ) → Keeps (note_eof is_eof n)
note_eof-Keeps true n s = refl
note_eof-Keeps false n s = refl

receive_inorder-Keeps : (packet : List ℕ) → Keeps (receive_inorder packet)
unfolding receive_inorder
receive_inorder-Keeps packet =
    let n : ℕ = load_net32 zeroed packet 0 in
    let is_eof : Bool = byte_at zeroed packet 6 == flag_eof in
    Keeps-if (in_cksum packet == 0) (note_eof is_eof n >> next_inorder is_eof n packet)
      (return inorder)
      (Keeps-bind (note_eof is_eof n) (λ u. next_inorder is_eof n packet) (note_eof-Keeps is_eof n)
        (λ u. next_inorder-Keeps is_eof n packet))
      (λ s. refl)

receive_buffering-Keeps : (packet : List ℕ) → Keeps (receive_buffering packet)
unfolding receive_buffering
receive_buffering-Keeps packet =
    let n : ℕ = load_net32 zeroed packet 0 in
    let is_eof : Bool = byte_at zeroed packet 6 == flag_eof in
    Keeps-if (in_cksum packet == 0) (note_eof is_eof n >> next_buffering is_eof n packet)
      (return buffering)
      (Keeps-bind (note_eof is_eof n) (λ u. next_buffering is_eof n packet)
        (note_eof-Keeps is_eof n) (λ u. next_buffering-Keeps is_eof n packet))
      (λ s. refl)

or_fault-Keeps {ℓ} : {A : Type ℓ} (o : Option A) → Keeps (or_fault o)
or_fault-Keeps none s = tt
or_fault-Keeps (some a) s = refl

flush_entry-Keeps : (index : ℕ) (e : BufferEntry) → Keeps (flush_entry index e)
unfolding flush_entry safe_sendto
flush_entry-Keeps index e s = elim (Bool-cases (leb e.data_len (length e.bytes))) [
  | inl fits ↦ rw fits refl
  | inr long ↦ rw long tt
]

flush_loop-Keeps : (fuel : ℕ) → Keeps (flush_loop fuel)
unfolding flush_loop
flush_loop-Keeps zero s = tt
flush_loop-Keeps (suc fuel) s =
    Keeps-bind (or_fault (current_entry s.buffer)) _ (or_fault-Keeps (current_entry s.buffer))
      (λ at_current.
        Keeps-if at_current.1.valid_flag _ _
          (Keeps-bind (flush_entry at_current.0 at_current.1) _
            (flush_entry-Keeps at_current.0 at_current.1) (λ u. flush_loop-Keeps fuel))
          (λ t. refl))
      s

-- How much input a state may still use; a flush comes between two rounds that take an answer.
abbrev rank : RecvState → ℕ
rank flush = 1
rank _ = 0

abbrev pub measure : RecvState × Rcopy → ℕ
measure r = 2 * length r.1.net.answers + rank r.0

rank-le : (state : RecvState) → rank state ≤ 1
rank-le inorder = omega arith
rank-le buffering = omega arith
rank-le flush = omega arith
rank-le finished = omega arith

after_flush_later :
    (s : Rcopy) → Returns (λ r. (r.1.net.answers ≡ s.net.answers) × (rank r.0 ≡ 0)) (after_flush s)
unfolding after_flush safe_sendto
after_flush_later s = elim (Bool-cases (slt s.buffer.current s.buffer.highest)) [
  | inr reached ↦ rw reached (refl, refl)
  | inl below ↦ elim (Option-cases (current_entry s.buffer)) [
    | inl missing ↦ rw (below, missing) tt
    | inr (at_current, found) ↦ elim (Bool-cases at_current.1.valid_flag) [
      | inl valid ↦ rw (below, found, valid) (refl, refl)
      | inr empty ↦ rw (below, found, empty) (refl, refl)
    ]
  ]
]

handle_flush_progress :
    (s : Rcopy) → Returns (λ r. measure r < 2 * length s.net.answers + 1) (handle_flush s)
unfolding handle_flush
handle_flush_progress s =
    Returns-and_then (λ r. r.1.net.answers ≡ s.net.answers)
      (λ r. measure r < 2 * length s.net.answers + 1) (flush_loop (suc (length s.buffer.entries)) s)
      (λ r. after_flush r.1) (flush_loop-Keeps (suc (length s.buffer.entries)) s)
      (λ r e.
        Returns-mono (λ q. (q.1.net.answers ≡ r.1.net.answers) × (rank q.0 ≡ 0))
          (λ q. measure q < 2 * length s.net.answers + 1) (after_flush r.1)
          (λ q h. omega (arith, ap length (h.0 ∙ e), h.1)) (after_flush_later r.1))

module _ {ℓ κ} {A : Type ℓ} {B : Type κ} where
  pub Returns-on_net :
      (P : A × Net → Type 0) (Q : B × Rcopy → Type 0) (m : M Net A) (s : Rcopy) (f : A → M Rcopy B)
      → Ensures P (m s.net)
      → ((a : A) (n : Net) → P (a, n) → Returns Q (f a (record s { net = n })))
      → Returns Q ((on_net m >>= f) s)
  Returns-on_net P Q m s f h k =
      Returns-and_then (λ x. Returns Q (f x.0 x.1)) Q (on_net m s) (λ x. f x.0 x.1)
        (Returns-and_then P (λ x. Returns Q (f x.0 x.1)) (m s.net)
          (λ x. ok (x.0, record s { net = x.1 })) (Ensures→Returns P (m s.net) h)
          (λ x p. k x.0 x.1 p))
        (λ x p. p)

module _ (sock_num : ℕ) (state : RecvState) (receive : List ℕ → M Rcopy RecvState)
    (kept : (packet : List ℕ) → Keeps (receive packet)) (calm : rank state ≡ 0) where
  on_ready_progress :
      (s : Rcopy)
      → Returns
          (λ r. measure r < 2 * length s.net.answers)
          ((on_net poll >>= on_ready sock_num state receive) s)
  on_ready_progress s =
      Returns-on_net (λ r. IsPolled s.net r.1) (λ r. measure r < 2 * length s.net.answers) poll s
        (on_ready sock_num state receive) (poll_lem s.net) answered_poll
    where
      answered_poll :
          (ready : Option ℕ) (n : Net)
          → IsPolled s.net n
          → Returns
              (λ r. measure r < 2 * length s.net.answers)
              (on_ready sock_num state receive ready (record s { net = n }))
      answered_poll none n p = tt
      answered_poll (some fd) n p = elim (Bool-cases (fd == sock_num)) [
        | inr other ↦ rw other (omega (arith, p.one_answer, calm))
        | inl ours ↦ rw ours (
            Returns-on_net (IsReceived max_pdu n) (λ r. measure r < 2 * length s.net.answers)
              (safe_recvfrom max_pdu) (record s { net = n }) receive (safe_recvfrom_lem max_pdu n)
              (λ packet n' r.
                Returns-mono (λ q. q.1.net.answers ≡ n'.answers)
                  (λ q. measure q < 2 * length s.net.answers)
                  (receive packet (record s { net = n' }))
                  (λ q h. omega (
                    arith,
                    ap length h,
                    ap (λ (m : Net). length m.answers) r.4,
                    p.one_answer,
                    rank-le q.0,
                  ))
                  (kept packet (record s { net = n' }))))
      ]

-- Every call of receive_data_fsm that returns makes a measure smaller: twice the answers of the poll
-- that are left, and one for a pending flush.
pub receive_data_fsm_progress :
    (sock_num : ℕ) (state : RecvState) (s : Rcopy)
    → Returns (λ r. measure r < measure (state, s)) (receive_data_fsm sock_num state s)
unfolding receive_data_fsm
receive_data_fsm_progress sock_num inorder s =
    Returns-mono (λ r. measure r < 2 * length s.net.answers) (λ r. measure r < measure (inorder, s))
      _ (λ q h. omega arith)
      (on_ready_progress sock_num inorder receive_inorder receive_inorder-Keeps refl s)
receive_data_fsm_progress sock_num buffering s =
    Returns-mono (λ r. measure r < 2 * length s.net.answers)
      (λ r. measure r < measure (buffering, s)) _ (λ q h. omega arith)
      (on_ready_progress sock_num buffering receive_buffering receive_buffering-Keeps refl s)
receive_data_fsm_progress sock_num flush s = handle_flush_progress s
receive_data_fsm_progress sock_num finished s = tt
