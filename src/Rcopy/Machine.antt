-- ===== src/Rcopy/Machine.antt =====
-- rcopy.c: `rcopy_FSM`, from the request to the end of the transfer.
use cpe464_program.Common.{
  Bool, M, Run, [], and_then, exit, if◌then◌else◌, out_of_fuel, return, suc, zero, ℕ, ◌>>=◌,
}
use cpe464_program.Buffer.{Memory, buffer_init}
use cpe464_program.Net.{Net}
use cpe464_program.Rcopy.{Rcopy, RecvState, inorder, is_finished, receive_data_fsm}
use cpe464_program.Rcopy.Exchange.{Args, RcopyState, done, filename_exchange, receive_data}

unfoldable pub receive_loop : ℕ → ℕ → RecvState → M Rcopy (Unit {0})
receive_loop zero sock_num current = λ s. out_of_fuel
receive_loop (suc fuel) sock_num current = do
  next ← receive_data_fsm sock_num current
  if is_finished next then return tt else receive_loop fuel sock_num next

-- A state of `rcopy_FSM` after `SEND_FILENAME`: `DONE` ends it, `RECEIVE_DATA` loops in itself until the
-- received state is `EXIT`, and any other state ends it too.
unfoldable pub after_exchange : ℕ → ℕ → RcopyState → M Rcopy (Unit {0})
unfolding receive_loop
after_exchange fuel sock_num done = return tt
after_exchange fuel sock_num receive_data = receive_loop fuel sock_num inorder
after_exchange fuel sock_num other = return tt

-- `opens` is whether the output file can be opened. The state begins with an empty file, and with the
-- global `eof_seq_num` at 0.
unfoldable pub rcopy_fsm : Memory → (ℕ → ℕ) → Bool → ℕ → ℕ → Args → Net → Run (Unit {0} × Rcopy)
unfolding filename_exchange after_exchange
rcopy_fsm memory stack opens fuel sock_num a net =
    and_then (buffer_init memory a.window_size a.buffer_size 0) λ b.
      if opens
      then ((filename_exchange stack sock_num a >>= after_exchange fuel sock_num)
          (record { net = net; buffer = b; out_file = []; eof_seq_num = 0 }))
      else exit 1
