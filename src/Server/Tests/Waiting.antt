-- ===== src/Server/Tests/Waiting.antt =====
-- The child of the tests: its time-outs.
use cpe464_program.Common.{
  All, Ends, [], arith, inl, inr, length, ok, refl, replicate, suc, zero, ℕ, ◌∷◌, ◌≡◌, ◌≢◌, ◌≤◌,
}
use cpe464_program.Net.{datagram}
use cpe464_program.Packet.{build_packet, flag_eof, flag_resent_timeout, rr_packet}
use cpe464_program.Poll.{answered, poll_call}
use cpe464_program.Server.{Server, done, filename_ack, handle_send_data, handle_wait_eof_ack}
use cpe464_program.Server.Heard.{IsHeard, IsOurs}
use cpe464_program.Server.Patience.{handle_wait_eof_ack-Ends}
use cpe464_program.Server.Persistence.{handle_send_data_bounded}
use cpe464_program.Server.Tests.{first, forsaken, forsaken-IsServing, quiet, three_bytes}
use cpe464_program.Server.Waiting.{
  handle_send_data_times_out, handle_wait_eof_ack_times_out, timeouts, unheard,
}

handle_send_data_times_out_example :
    handle_send_data 11 (λ i. 0) 3 forsaken
    ≡ ok (done, unheard [] (replicate 9 (build_packet 0 flag_resent_timeout (1 ∷ 2 ∷ []))) forsaken)
handle_send_data_times_out_example =
    handle_send_data_times_out 2 three_bytes (omega arith) 0 (λ i. 0) 3 [] forsaken refl
      forsaken-IsServing (omega arith) (omega arith) refl (omega arith)

handle_wait_eof_ack_times_out_example :
    handle_wait_eof_ack 11 (λ i. 0) forsaken
    ≡ ok (done, unheard [] (replicate 10 (build_packet 2 flag_eof [])) forsaken)
handle_wait_eof_ack_times_out_example = handle_wait_eof_ack_times_out 0 (λ i. 0) [] forsaken refl

-- It hears nothing while forty polls time out.
abbrev deaf : Server
deaf = record forsaken { net = record forsaken.net { answers = replicate 40 (answered 0 []) } }

handle_wait_eof_ack-Ends_example : Ends (λ r. r.0 ≡ done) (handle_wait_eof_ack 11 (λ i. 0) deaf)
handle_wait_eof_ack-Ends_example = handle_wait_eof_ack-Ends 11 (λ i. 0) deaf (omega arith)

-- Nothing is sent yet; one reply will come, while the second block is out, and then nothing more.
abbrev fading : Server
fading = record first {
  net = record quiet {
    answers = answered 0 [] ∷ answered 1 (0 ∷ 0 ∷ 0 ∷ 1 ∷ []) ∷ timeouts 40 [];
    arrivals = datagram (rr_packet 0) ∷ [];
  };
}

timeouts-IsOurs : (n : ℕ) → All (IsOurs 3 quiet.poll_set) (timeouts n [])
unfolding poll_call
timeouts-IsOurs zero = tt
timeouts-IsOurs (suc n) = (inl refl, timeouts-IsOurs n)

fading-IsHeard : IsHeard 3 fading
unfolding poll_call
fading-IsHeard = (inl refl, (inr refl, timeouts-IsOurs 40))

handle_send_data_bounded_example :
    Ends
      (λ r.
        (r.0 ≢ filename_ack)
        × (IsHeard 3 r.1)
        × (length r.1.net.arrivals ≤ 1)
        × (length r.1.export_file ≤ 3))
      (handle_send_data 15 (λ i. 0) 3 fading)
handle_send_data_bounded_example =
    handle_send_data_bounded 15 (λ i. 0) 3 fading (omega arith) fading-IsHeard
