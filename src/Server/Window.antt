-- ===== src/Server/Window.antt =====
-- server.c: a window whose end lies below the current number.
use cpe464_program.Common.{
  List, Option, Run, ap, arith, eq→==, false, ok, out_of_fuel, refl, slt, slt_of_lt, some, suc,
  true, zero, ℕ, ◌%◌, ◌+◌, ◌<◌, ◌==◌, ◌^◌, ◌≡◌,
}
use cpe464_program.Checksum.{in_cksum}
use cpe464_program.Packet.{byte_at, flag_rr, load_net32, rr_packet}
use cpe464_program.Packet.Fields.{control_packet_fields}
use cpe464_program.Packet.Layout.{control_packet_verifies}
use cpe464_program.Server.{Server, child_loop, handle_send_data, obey, process_packet, send_file}

slt_asymm : (a b : ℕ) → slt a b ≡ true → (slt b a ≡ false) × ((b == a) ≡ false)
slt_asymm a b h = ground arith

-- With the current number past the end of the window neither loop of `handle_send_data` is entered.
handle_send_data_overrun :
    (fuel : ℕ) (stack : ℕ → ℕ) (socket_num : ℕ) (s : Server)
    → slt s.window.highest s.window.current ≡ true
    → handle_send_data (suc fuel) stack socket_num s ≡ ok (send_file, s)
unfolding handle_send_data
handle_send_data_overrun fuel stack socket_num s over =
    let (closed, different) = slt_asymm s.window.highest s.window.current over in
    rw (closed, different)

-- A child whose current number is past the end of its window never ends and never polls again: however
-- many rounds it is given, it uses them up.
pub child_loop_overrun :
    (fuel inner : ℕ) (stack : ℕ → ℕ) (socket_num : ℕ) (s : Server)
    → slt s.window.highest s.window.current ≡ true
    → child_loop fuel (suc inner) stack socket_num send_file s ≡ out_of_fuel
unfolding child_loop
child_loop_overrun zero inner stack socket_num s over = refl
child_loop_overrun (suc fuel) inner stack socket_num s over =
    rw (handle_send_data_overrun inner stack socket_num s over)
      (child_loop_overrun fuel inner stack socket_num s over)

-- What `process_rr_srej_eof` makes of an RR: the window follows the number that it carries.
pub process_packet_rr :
    (stack : ℕ → ℕ) (packet : List ℕ) (n : ℕ) (s : Server)
    → in_cksum packet ≡ 0
    → byte_at stack packet 6 ≡ flag_rr
    → load_net32 stack packet 7 ≡ n
    → process_packet stack packet s
      ≡ ok (
        some flag_rr,
        record s {
          window = record s.window { lowest = n; highest = (n + s.window.size) % 2 ^ 32 };
        },
      )
unfolding process_packet obey
process_packet_rr stack packet n s good marked number =
    let moved : ℕ → Run (Option ℕ × Server) = λ k. ok (
      some flag_rr,
      record s { window = record s.window { lowest = k; highest = (k + s.window.size) % 2 ^ 32 } },
    ) in
    rw (eq→== (in_cksum packet) 0 good, marked) (ap moved number)

-- If the server has sent more than a window beyond the number that an RR carries, it obeys the RR,
-- and from then on the child's loop neither polls nor ends: it uses up every number of rounds that
-- it is given.
pub late_rr_spins :
    (fuel inner : ℕ) (stack : ℕ → ℕ) (socket_num n : ℕ) (s : Server)
    → s.window.current < 2 ^ 31
    → n + s.window.size < s.window.current
    → (t : Server) × (process_packet stack (rr_packet n) s ≡ ok (some flag_rr, t))
      × (child_loop fuel (suc inner) stack socket_num send_file t ≡ out_of_fuel)
late_rr_spins fuel inner stack socket_num n s c late =
    let (srej_number, number, srej_flag, marked) = control_packet_fields stack n (omega arith) in
    let t : Server = record s {
      window = record s.window { lowest = n; highest = (n + s.window.size) % 2 ^ 32 };
    } in
    (
      t,
      process_packet_rr stack (rr_packet n) n s (control_packet_verifies n).1 marked number,
      child_loop_overrun fuel inner stack socket_num t
          (slt_of_lt ((n + s.window.size) % 2 ^ 32) s.window.current c (omega arith)),
    )
