-- ===== src/Client/Sends.antt =====
-- What the client library sends, and what its results say of a synchronous request.
use fine_db.Prelude.{◌≡◌, ◌≢◌, ◌↔◌, true, false, none, some, [], ◌++◌, Bytes, length, arith, ==_iff}
use fine_db.Yerr.{Yerr, yenoerr}
use fine_db.Snappy.{Snappy}
use fine_db.Protocol.{response_code, response_status, code_byte}
use fine_db.Socket.{sendmsg_all}
use fine_db.Command.Reply.{answer}
use fine_db.Client.{
  Client, finedb_ok, send, read_code, next_byte, result_of, exchange, put_request, malloc,
  send_key_data, finedb_put,
}

-- A connected client on which the coming allocations and transmissions succeed.
pub record IsReady (c : Client) : Type 0 where
  pub connected : c.sock ≢ none
  pub memory : c.allocs ≡ []
  pub line : c.sends ≡ []

pub send-ready :
    (msg : Bytes) (c : Client)
    → IsReady c
    → send msg c ≡ (true, record c { socket = record c.socket { sent = c.sent ++ msg } })
unfolding send
send-ready msg c h =
    ground (arith, sendmsg_all msg c.socket h.line, ==_iff (length msg) (length msg))

pub exchange-ready :
    (msg : Bytes) (c : Client)
    → IsReady c
    → ((exchange msg c).0 ≡ result_of (next_byte c.recvs).0)
      × ((exchange msg c).1.sent ≡ c.sent ++ msg)
unfolding exchange read_code
exchange-ready msg c h = ground (arith, send-ready msg c h)

-- For a connected client whose allocations and transmissions succeed, finedb_put of a value that
-- Snappy compresses sends one PUT request with the compressed value, and its result is the one
-- that the next byte received stands for.
pub finedb_put-sends :
    (zip : Snappy) (key value z : Bytes) (c : Client)
    → IsReady c
    → zip.snappy_compress value ≡ some z
    → let r = finedb_put zip key value c in
      (r.1.sent ≡ c.sent ++ put_request c.sync key z) × (r.0 ≡ result_of (next_byte c.recvs).0)
unfolding finedb_put send_key_data malloc
finedb_put-sends zip key value z c h zipped =
    ground (arith, exchange-ready (put_request c.sync key z) c h)

-- The byte that answers a synchronous PUT or DEL is read as FINEDB_OK exactly if the call of
-- database.c has succeeded.
pub result_of-answer :
    (code : Yerr)
    → (result_of (some (code_byte (answer code) false false)) ≡ finedb_ok) ↔ (code ≡ yenoerr)
unfolding result_of answer code_byte response_code response_status
result_of-answer code = ground arith
