-- ===== src/Transfer/Network.antt =====
-- The child of server.c and the client of rcopy.c on a network that may lose packets, repeat them, change
-- their order and damage them: what arrives is any packet that was ever sent, or one that does not
-- verify. The steps are those of the time when the file is sent, before the EOF.
pub mod Moves
pub mod Sender
pub mod Receiver
pub mod Safety
pub mod Closing
pub mod Ending
pub mod Packets
pub mod Replies
pub mod Recovery
mod Tests
use cpe464_program.Common.{
  Bool, List, Option, [], length, ok, slt, take, true, ℕ, ◌<◌, ◌>>=◌, ◌∷◌, ◌≡◌, ◌≢◌, ◌≤◌, ◌⊎◌,
}
use cpe464_program.Buffer.{CircularBuffer}
use cpe464_program.Checksum.{in_cksum}
use cpe464_program.Net.{datagram}
use cpe464_program.Packet.{flag_resent_timeout, load_net32, max_payload_size, max_pdu}
use cpe464_program.Poll.{Answer}
use cpe464_program.Rcopy.{Rcopy, RecvState, buffering, finished, receive_data_fsm, zeroed}
use cpe464_program.Server.{Server, process_packet, read_file_to_buffer, resend_packet, send_read}
use cpe464_program.Server.Outstanding.{IsDue}

pub record System : Type 0 where
  pub server : Server
  pub client : Rcopy
  pub state : RecvState

-- The packet is among those that were sent.
abbrev pub IsIn : List ℕ → List (List ℕ) → Type 0
IsIn p [] = ⊥
IsIn p (q ∷ sent) = (p ≡ q) ⊎ IsIn p sent

-- The packet was sent; or another was, and was damaged so that it does not verify.
abbrev pub Arrives : List (List ℕ) → List ℕ → Type 0
Arrives sent p = IsIn p sent ⊎ ((0 < length sent) × (in_cksum (take max_pdu p) ≢ 0))

-- While the client is buffering, a packet that verifies is no older than the newest buffered one.
abbrev pub IsInOrder : RecvState → CircularBuffer → List ℕ → Type 0
IsInOrder state b p =
    state ≡ buffering → b.current < load_net32 zeroed p 0 → b.highest ≤ load_net32 zeroed p 0

-- The client with this datagram at its socket.
abbrev pub listening : Answer → List ℕ → Rcopy → Rcopy
listening a p c = record c { net = record c.net { answers = a ∷ []; arrivals = datagram p ∷ [] } }

module _ (chunk_size : ℕ) (file : List ℕ) (small : chunk_size ≤ max_payload_size) (stack : ℕ → ℕ)
    (sock_num : ℕ) where
  pub data Step : System → System → Type 0 where
    -- The window is open, and the server reads and sends a block.
    sends :
        {y : System} {over : Bool} {t : Server}
        → slt y.server.window.current y.server.window.highest ≡ true
        → (read_file_to_buffer >>= send_read) y.server ≡ ok (over, t)
        → Step y (record y { server = t })
    -- The window is full, and the poll times out.
    times_out :
        {y : System} {t : Server}
        → y.server.window.lowest < y.server.window.current
        → y.server.window.current ≡ y.server.window.highest
        → resend_packet y.server.window.lowest flag_resent_timeout y.server ≡ ok (tt, t)
        → Step y (record y { server = t })
    -- A reply of the client comes to the server, and is due.
    hears :
        {y : System} {flag : Option ℕ} {t : Server} (p : List ℕ)
        → Arrives y.client.net.sent p
        → length p ≤ max_pdu
        → IsDue chunk_size file small stack y.server p
        → process_packet stack p y.server ≡ ok (flag, t)
        → Step y (record y { server = t })
    -- A packet of the server comes to the client, which goes on.
    receives :
        {y : System} {state : RecvState} {c : Rcopy} (p : List ℕ) (a : Answer)
        → Arrives y.server.net.sent p
        → IsInOrder y.state y.client.buffer p
        → receive_data_fsm sock_num y.state (listening a p y.client) ≡ ok (state, c)
        → state ≢ finished
        → Step y (record y { client = c; state = state })

  pub data Reach (y : System) : System → Type 0 where
    here : Reach y y
    next : {z w : System} → Reach y z → Step z w → Reach y w
