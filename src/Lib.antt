-- ===== src/Lib.antt =====
-- A file transfer over UDP with a selective-reject window: rcopy fetches a file from server.
--
-- The two programs share the packets, the checksum, the circular buffer and the poll set. The server
-- waits for a request, forks, and the child sends the file in numbered blocks as far as its window
-- allows; the client writes the blocks in order, buffers those that come early, and answers with RR and
-- SREJ packets; the EOF packet, and its return, end the transfer.
--
-- What models what, by the paths of the repository:
--   Checksum       `in_cksum` of libcpe464, a copy of a library, on whose value the bytes of every packet
--                  depend: a function that follows libcpe464/checksum.c, on a little-endian machine.
--   Packet         communication.h, communication.c: `build_packet` and the flags; and the packets that
--                  `send_SREJ`, `send_rr` and `send_filename` of rcopy.c build by hand.
--   Poll           pollLib.c: the poll set, and what `pollCall` makes of the kernel's answer.
--   Net            safeUtil.c and the UDP socket: answers to polls and arriving datagrams are scripts,
--                  what is sent is recorded in order.
--   Socket         the other calls of the system: what they return is a script, the calls are recorded;
--                  `safeSend` and `safeRecv` of safeUtil.c.
--   Lookup         gethostbyname.c, with its static array.
--   Networks       networks.c: the sockets that both programs and the TCP examples set up.
--   Numbers        `strtol` and `atoi` of the C library, with the decimal print that they read back.
--   Floats         what the programs use of `float`, as a parameter.
--   Buffer         buffer.h, buffer.c: `buffer_init` and `buffer_add`; Buffer/Refine has the map that they
--                  implement, Buffer/Free has `buffer_free`.
--   Rcopy          rcopy.c: `handle_inorder`, `handle_buffer`, `handle_flush`, `receive_data_fsm`.
--   Rcopy/Exchange rcopy.c: `filename_exchange` with `send_filename` and `process_filename_response`.
--   Rcopy/Machine  rcopy.c: `rcopy_FSM`.
--   Rcopy/Main     rcopy.c: `checkArgs` and `main`.
--   Server         server.c: the child's `read_file_to_buffer`, `send_data`, `resend_packet`,
--                  `process_rr_srej_eof`, `handle_send_data`, `handle_wait_EOF_ack`, and the loop of
--                  `server_FSM`.
--   Server/Request server.c: `processFilenameAck`, and the child from the fork on.
--   Server/Main    server.c: `checkArgs`, the parent in `server_FSM`, and `main`.
--   Tcp            myClient.c and myServer.c.
--   Transfer       both programs: the packets of server.c as the client of rcopy.c sees them, and rounds
--                  in which the two take turns; Transfer/CommandLine goes from the command line of
--                  rcopy.c to the server.
--   Transfer/Network  both programs as one relation of steps, on a network that loses, repeats, reorders
--                  and damages packets; Transfer/Network/Ending has the EOF.
-- Common has what they share: memory as lists of bytes, the tests on numbers, and `Run`, the result of
-- running a piece of the program. The other files below a part hold the properties of it, and its tests.
--
-- State is passed on explicitly: a function of type `M S A` takes the state and gives a `Run` of a value
-- and the new state. A `Run` is a return, an `exit`, a `fault` (what C leaves undefined: an index or a
-- copy out of bounds, a division by zero), `blocked` where the script of the environment is at its end,
-- or `out_of_fuel`. Numbers are natural: an `int` is its 32-bit pattern, compared by `slt` and advanced
-- by `incr`; a signed overflow of the counters wraps round, as compilers do.
--
-- Loops that only C bounds run on fuel. `flush_loop` gets one round more than there are entries, since
-- every round clears a valid one. `receive_loop` gets its fuel from outside; every round but a flush
-- takes an answer of the script, so more than twice the answers is enough. The loops of the server get
-- theirs from outside too: those of `handle_wait_EOF_ack` and `handle_send_data` take an answer in every
-- round. They also end by themselves: that of `handle_wait_EOF_ack` after ten rounds for each datagram to
-- come and ten more, those of `handle_send_data`, while no other descriptor is reported, after as many
-- rounds as there are datagrams to come, bytes left of the file, and ten. The loop of `server_FSM`
-- around them may go round without an answer.
--
-- The endless loop of the parent in `server_FSM` is `serve_requests`, which returns the state after a
-- number of its rounds; `server_fsm` is out of fuel after them, since the code never returns. What
-- `fork` returns is a script: a run is that of one process, the parent's or a child's.
--
-- The array into which `filename_exchange` and `processFilenameAck` receive keeps the bytes of earlier
-- datagrams behind those of the last one, and begins with whatever the stack held. The print of it by
-- `%s` in `filename_exchange` (rcopy.c:180), like that in myServer.c, is a fault if no NUL stands in it.
--
-- Not modelled: other printing, but for the ports, addresses and texts that the calls of
-- networks.c, gethostbyname.c and the TCP examples show, so neither the `%s` of server.c:170, which
-- reads past a full block that has no zero byte; flushing and closing files, and the calls of
-- `buffer_free` at the end of both programs; the rest of libcpe464, a copy of a library, which is
-- its error generator, whose effect is in the script of arrivals, and of which sends are taken to
-- succeed, with the error rate that it is given; the addresses of the peers of datagrams; `calloc`
-- and `realloc` of pollLib.c, taken to succeed; a stack too small for the array of
-- `read_file_to_buffer`; a read error of a file, which the code takes for its end.
pub mod Common
pub mod Checksum
pub mod Packet
pub mod Poll
pub mod Net
pub mod Buffer
pub mod Rcopy
pub mod Server
pub mod Socket
pub mod Floats
pub mod Lookup
pub mod Numbers
pub mod Networks
pub mod Tcp
pub mod Transfer
