-- ===== src/Poll.antt =====
-- pollLib.c: the set of watched descriptors and the call that waits for one of them. Its three static
-- variables are the record `PollSet`; what the kernel's `poll` answers is an argument.
pub mod Laws
mod Tests
use cpe464_program.Common.{
  List, Option, Run, and_then, exit, fault, get_or, if◌then◌else◌, leb, length, ltb, none, ok,
  replicate, set, some, suc, zero, ℕ, ◌++◌, ◌+◌, ◌-◌,
}

-- `struct pollfd`, without the `revents` that a call fills in.
pub record PollFd : Type 0 where
  pub fd : ℕ
  pub events : ℕ

pub record PollSet : Type 0 where
  pub descriptors : List PollFd
  pub max_descriptor : ℕ
  pub set_size : ℕ

abbrev pub poll_set_size : ℕ
poll_set_size = 10

abbrev pub pollin : ℕ
pollin = 1

abbrev pub unwatched : PollFd
unwatched = record { fd = 0; events = 0 }

-- The status of `exit(-1)`.
abbrev pub exit_minus_1 : ℕ
exit_minus_1 = 255

-- `poll` failed, or returned a value and filled in the `revents` of the descriptors in order.
pub data Answer : Type 0 where
  failed : Answer
  answered : ℕ → List ℕ → Answer

unfoldable pub setup_poll_set : PollSet → PollSet
setup_poll_set p = record p {
  descriptors = replicate poll_set_size unwatched;
  set_size = poll_set_size;
}

unfoldable pub grow_poll_set : ℕ → PollSet → Run PollSet
grow_poll_set new_size p =
    if leb new_size p.set_size
    then exit exit_minus_1
    else ok (record p {
      descriptors = p.descriptors ++ replicate (new_size - p.set_size) unwatched;
      set_size = new_size;
    })

-- The last two assignments of `addToPollSet`; a descriptor past the array is out of bounds.
unfoldable pub watch : ℕ → PollFd → PollSet → Run PollSet
watch socket_number entry p =
    if ltb socket_number (length p.descriptors)
    then ok (record p { descriptors = set p.descriptors socket_number entry })
    else fault

unfoldable pub raise_max : ℕ → PollSet → PollSet
raise_max socket_number p =
    if leb p.max_descriptor (socket_number + 1)
    then record p { max_descriptor = socket_number + 1 }
    else p

unfoldable pub add_to_poll_set : ℕ → PollSet → Run PollSet
unfolding watch raise_max grow_poll_set
add_to_poll_set socket_number p =
    let grown =
      if leb p.set_size socket_number
      then grow_poll_set (socket_number + poll_set_size) p
      else ok p in
    and_then grown λ q.
      watch socket_number (record { fd = socket_number; events = pollin })
        (raise_max socket_number q)

unfoldable pub remove_from_poll_set : ℕ → PollSet → Run PollSet
unfolding watch
remove_from_poll_set socket_number p = watch socket_number unwatched p

-- The loop of `pollCall` from index `i`, with `left` rounds left.
unfoldable pub first_ready : ℕ → ℕ → List ℕ → Option ℕ
first_ready zero i revents = none
first_ready (suc left) i revents =
    let rest = first_ready left (i + 1) revents in
    if ltb 0 (get_or revents i 0) then some i else rest

-- `none` is the returned value -1.
unfoldable pub poll_call : PollSet → Answer → Run (Option ℕ)
unfolding first_ready
poll_call p failed = exit exit_minus_1
poll_call p (answered value revents) =
    ok (if ltb 0 value then first_ready p.max_descriptor 0 revents else none)
