-- ===== src/Poll/Laws.antt =====
-- pollLib.c: the size of the poll set, and the result of a call.
use native.Mathlib.Decide.{ℕ_discrete}
use cpe464_program.Common.{
  Bool-cases, List, Option, ap, arith, get_elem?, get_elem?-append, get_elem?-set_ne,
  get_elem?-set_self, get_or, inl, inr, leb, leb→le, length, length-append, length-replicate,
  length-set, ltb, ltb→lt, lt→leb, lt→ltb, none, ok, refl, replicate, set, some, suc, sym, zero, ℕ,
  ◌++◌, ◌+◌, ◌-◌, ◌<◌, ◌∙◌, ◌≡◌, ◌≢◌, ◌≤◌, ◌⊎◌,
}
use cpe464_program.Poll.{
  PollFd, PollSet, add_to_poll_set, answered, first_ready, grow_poll_set, poll_call, poll_set_size,
  pollin, raise_max, setup_poll_set, unwatched, watch,
}

-- The array has as many descriptors as the size says, and no descriptor past them is asked for.
pub record IsWellSized (p : PollSet) : Type 0 where
  pub count : length p.descriptors ≡ p.set_size
  pub bounded : p.max_descriptor ≤ p.set_size

pub setup_poll_set-IsWellSized :
    (p : PollSet) → p.max_descriptor ≤ poll_set_size → IsWellSized (setup_poll_set p)
unfolding setup_poll_set
setup_poll_set-IsWellSized p h = record {
  count = length-replicate poll_set_size unwatched;
  bounded = h;
}

-- `q` is `p` with one more descriptor, watched for input.
pub record IsAdded (p : PollSet) (socket_number : ℕ) (q : PollSet) : Type 0 where
  pub well_sized : IsWellSized q
  pub watched :
      get_elem? q.descriptors socket_number ≡ some (record { fd = socket_number; events = pollin })
  pub asked : socket_number < q.max_descriptor
  pub others :
      (i : ℕ)
      → i < p.set_size
      → i ≢ socket_number
      → get_elem? q.descriptors i ≡ get_elem? p.descriptors i
  pub max_kept : p.max_descriptor ≤ q.max_descriptor

-- A set that is large enough for the descriptor takes it without growing.
raise_max_lem :
    (socket_number : ℕ) (p : PollSet)
    → IsWellSized p
    → socket_number < p.set_size
    → IsWellSized (raise_max socket_number p)
      × (socket_number < (raise_max socket_number p).max_descriptor)
      × ((raise_max socket_number p).descriptors ≡ p.descriptors)
      × ((raise_max socket_number p).set_size ≡ p.set_size)
      × (p.max_descriptor ≤ (raise_max socket_number p).max_descriptor)
unfolding raise_max
raise_max_lem socket_number p v h = elim (Bool-cases (leb p.max_descriptor (socket_number + 1))) [
  | inl up ↦ rw up (
    record { count = v.count; bounded = omega arith },
    omega arith,
    refl,
    refl,
    leb→le p.max_descriptor (socket_number + 1) up,
  )
  | inr kept ↦ rw kept (v, ground (arith, kept), refl, refl, omega arith)
]

watch_lem :
    (socket_number : ℕ) (p : PollSet)
    → IsWellSized p
    → socket_number < p.set_size
    → (q : PollSet) × (watch socket_number
          (record { fd = socket_number; events = pollin })
          (raise_max socket_number p)
        ≡ ok q)
      × IsAdded p socket_number q
unfolding watch
watch_lem socket_number p v h =
    let (w, asked, same, size, up) = raise_max_lem socket_number p v h in
    let r = raise_max socket_number p in
    let entry : PollFd = record { fd = socket_number; events = pollin } in
    let inside : socket_number < length r.descriptors = omega (arith, w.count) in
    (
      record r { descriptors = set r.descriptors socket_number entry },
      rw (lt→ltb socket_number (length r.descriptors) inside),
      record {
        well_sized = record {
          count = length-set r.descriptors socket_number entry ∙ w.count;
          bounded = w.bounded;
        };
        watched = get_elem?-set_self r.descriptors socket_number entry inside;
        asked = asked;
        others = λ i k ne.
            get_elem?-set_ne r.descriptors socket_number i entry (λ e. ne (sym e))
            ∙ ap (λ l. get_elem? l i) same;
        max_kept = up;
      },
    )

grow_poll_set_lem :
    (new_size : ℕ) (p : PollSet)
    → IsWellSized p
    → p.set_size < new_size
    → (q : PollSet) × (grow_poll_set new_size p ≡ ok q)
      × IsWellSized q
      × (q.set_size ≡ new_size)
      × (q.max_descriptor ≡ p.max_descriptor)
      × ((i : ℕ) → i < p.set_size → get_elem? q.descriptors i ≡ get_elem? p.descriptors i)
unfolding grow_poll_set
grow_poll_set_lem new_size p v h =
    let added : List PollFd = replicate (new_size - p.set_size) unwatched in
    (
      record p { descriptors = p.descriptors ++ added; set_size = new_size },
      rw (lt→leb new_size p.set_size h),
      record {
        count = omega (
          arith,
          length-append p.descriptors added,
          length-replicate (new_size - p.set_size) unwatched,
          v.count,
        );
        bounded = omega (arith, v.bounded);
      },
      refl,
      refl,
      λ i k. get_elem?-append p.descriptors added i (omega (arith, v.count)),
    )

-- addToPollSet on a well-sized set watches the descriptor for input, growing the set if needed:
-- nothing is written out of bounds, the process does not end, the other descriptors stay, the
-- descriptor is asked for by later polls, and the set is well-sized again.
pub add_to_poll_set_lem :
    (socket_number : ℕ) (p : PollSet)
    → IsWellSized p
    → (q : PollSet) × (add_to_poll_set socket_number p ≡ ok q) × IsAdded p socket_number q
unfolding add_to_poll_set
add_to_poll_set_lem socket_number p v = elim (Bool-cases (leb p.set_size socket_number)) [
  | inr fits ↦ rw fits (watch_lem socket_number p v (ground (arith, fits)))
  | inl past ↦
      (let low = leb→le p.set_size socket_number past in
        let (g, grown, w, size, top, kept) =
          grow_poll_set_lem (socket_number + poll_set_size) p v (omega arith) in
        let (q, added, a) = watch_lem socket_number g w (omega arith) in
        (
          q,
          rw (past, grown) added,
          record {
            well_sized = a.well_sized;
            watched = a.watched;
            asked = a.asked;
            others = λ i k ne. a.others i (omega arith) ne ∙ kept i k;
            max_kept = omega (arith, a.max_kept);
          },
        ))
]

-- The result of a call: the lowest descriptor below `max_descriptor` that has an event, or -1.
abbrev pub IsLowest : PollSet → ℕ → List ℕ → Option ℕ → Type 0
IsLowest p value revents none =
    (value ≡ 0) ⊎ ((i : ℕ) → i < p.max_descriptor → get_or revents i 0 ≡ 0)
IsLowest p value revents (some n) =
    (0 < value)
    × (n < p.max_descriptor)
    × (0 < get_or revents n 0)
    × ((i : ℕ) → i < n → get_or revents i 0 ≡ 0)

abbrev FirstFrom : ℕ → ℕ → List ℕ → Option ℕ → Type 0
FirstFrom left base revents none = (i : ℕ) → base ≤ i → i < base + left → get_or revents i 0 ≡ 0
FirstFrom left base revents (some n) =
    (n < base + left)
    × (0 < get_or revents n 0)
    × ((i : ℕ) → base ≤ i → i < n → get_or revents i 0 ≡ 0)

FirstFrom-idle :
    (left base : ℕ) (revents : List ℕ) (r : Option ℕ)
    → get_or revents base 0 ≡ 0
    → FirstFrom left (base + 1) revents r
    → FirstFrom (suc left) base revents r
FirstFrom-idle left base revents none idle later = λ i low high. elim (ℕ_discrete base i) [
  | yes same ↦ ap (λ k. get_or revents k 0) (sym same) ∙ idle
  | no other ↦ later i (omega arith) (omega arith)
]
FirstFrom-idle left base revents (some n) idle (inside, ready, later) = (
  omega arith,
  ready,
  λ i low high. elim (ℕ_discrete base i) [
    | yes same ↦ ap (λ k. get_or revents k 0) (sym same) ∙ idle
    | no other ↦ later i (omega arith) high
  ],
)

first_ready_lem :
    (left base : ℕ) (revents : List ℕ) → FirstFrom left base revents (first_ready left base revents)
unfolding first_ready
first_ready_lem zero base revents = λ i low high. absurd (omega arith)
first_ready_lem (suc left) base revents = elim (Bool-cases (ltb 0 (get_or revents base 0))) [
  | inl ready ↦
      rw ready
        (omega arith, ltb→lt 0 (get_or revents base 0) ready, λ i low high. absurd (omega arith))
  | inr idle ↦ rw idle (
      FirstFrom-idle left base revents (first_ready left (base + 1) revents) (ground (arith, idle))
        (first_ready_lem left (base + 1) revents))
]

FirstFrom-IsLowest :
    (p : PollSet) (value : ℕ) (revents : List ℕ) (r : Option ℕ)
    → 0 < value
    → FirstFrom p.max_descriptor 0 revents r
    → IsLowest p value revents r
FirstFrom-IsLowest p value revents none pos f = inr (λ i h. f i (omega arith) (omega arith))
FirstFrom-IsLowest p value revents (some n) pos (inside, ready, idle) =
    (pos, omega arith, ready, λ i h. idle i (omega arith) h)

-- When `poll` answers, pollCall returns: the lowest descriptor below maxFileDescriptor that has an
-- event if there are events and there is one below it, and -1 otherwise.
pub poll_call_lem :
    (p : PollSet) (value : ℕ) (revents : List ℕ)
    → (r : Option ℕ) × (poll_call p (answered value revents) ≡ ok r) × IsLowest p value revents r
unfolding poll_call
poll_call_lem p value revents = elim (Bool-cases (ltb 0 value)) [
  | inl some_event ↦ (
    first_ready p.max_descriptor 0 revents,
    rw some_event,
    FirstFrom-IsLowest p value revents (first_ready p.max_descriptor 0 revents)
        (ltb→lt 0 value some_event) (first_ready_lem p.max_descriptor 0 revents),
  )
  | inr no_event ↦ (none, rw no_event, inl (ground (arith, no_event)))
]
