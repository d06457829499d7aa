-- ===== src/Poll/Tests.antt =====
-- The set of the parent, with the listening socket 3, and what it takes to watch descriptor 12.
use cpe464_program.Common.{[], arith, ok, ◌≡◌}
use cpe464_program.Poll.{PollSet, add_to_poll_set, setup_poll_set}
use cpe464_program.Poll.Laws.{IsAdded, IsWellSized, add_to_poll_set_lem, setup_poll_set-IsWellSized}

abbrev empty_set : PollSet
empty_set = record { descriptors = []; max_descriptor = 0; set_size = 0 }

ready_set-IsWellSized : IsWellSized (setup_poll_set empty_set)
ready_set-IsWellSized = setup_poll_set-IsWellSized empty_set (omega arith)

add_to_poll_set_lem_example :
    (q : PollSet) × (add_to_poll_set 12 (setup_poll_set empty_set) ≡ ok q)
    × IsAdded (setup_poll_set empty_set) 12 q
add_to_poll_set_lem_example =
    add_to_poll_set_lem 12 (setup_poll_set empty_set) ready_set-IsWellSized

abbrev watching : PollSet
watching = record { descriptors = []; max_descriptor = 5; set_size = 10 }
