-- ===== src/Socket.antt =====
-- A stream socket: the results that the coming calls of `recv` and `sendmsg` will have, and the bytes
-- that were sent. A call that times out is one that fails.
pub mod Read
use fine_db.Prelude.{ℕ, ◌≡◌, arith, Option, none, some, List, [], ◌∷◌, ◌++◌, Bytes, length, take}

-- What one call of `recv` or `read` returns: some bytes, none when the peer has closed, or -1.
pub data Recv : Type 0 where
  received : Bytes → Recv
  recv_error : Recv

-- What one call of `sendmsg` or `write` does: it takes so many bytes at most, or returns -1.
pub data Sending : Type 0 where
  accepts : ℕ → Sending
  send_error : Sending

-- Behind the listed results, `recv` fails and `sendmsg` takes all that it is given.
pub record Socket : Type 0 where
  pub recvs : List Recv
  pub sends : List Sending
  pub sent : Bytes

transmit : Bytes → List Sending → Socket → Option ℕ × Socket
transmit msg [] s = (some (length msg), record s { sent = s.sent ++ msg })
transmit msg (send_error ∷ rest) s = (none, record s { sends = rest })
transmit msg (accepts n ∷ rest) s =
    (some (length (take n msg)), record s { sends = rest; sent = s.sent ++ take n msg })

-- The number of bytes taken, or `none` for -1.
unfoldable pub sendmsg : Bytes → Socket → Option ℕ × Socket
unfolding transmit
sendmsg msg s = transmit msg s.sends s

pub recvs-sendmsg : (msg : Bytes) (s : Socket) → (sendmsg msg s).1.recvs ≡ s.recvs
unfolding sendmsg
recvs-sendmsg msg s = ground arith

-- Where nothing is listed, all is taken.
pub sendmsg_all :
    (msg : Bytes) (s : Socket)
    → s.sends ≡ []
    → sendmsg msg s ≡ (some (length msg), record s { sent = s.sent ++ msg })
unfolding sendmsg
sendmsg_all msg s h = ground arith
