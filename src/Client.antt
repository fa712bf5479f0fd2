-- ===== src/Client.antt =====
-- The client library: src/lib/libfinedb.c. The code between `#if 0` and `#endif` is not compiled and
-- not modelled.
pub mod Get
pub mod Sends
pub mod Serving
pub mod Queued
pub mod RoundTrip
pub mod Sequence
pub mod Naming
pub mod Lifecycle
mod Tests
use fine_db.Prelude.{
  ℕ, ◌%◌, ◌^◌, Bool, true, false, Option, none, some, List, [], ◌∷◌, ◌++◌, Bytes, length, ◌==◌,
  if◌then◌else◌,
}
use fine_db.Wire.{htons, htonl, c_string}
use fine_db.Snappy.{Snappy}
use fine_db.Protocol.{
  Command, command_code, resp_ok, response_code, response_status, request_add_sync,
  request_add_compressed,
}
use fine_db.Socket.{Socket, Recv, received, recv_error, sendmsg}

pub data FinedbResult : Type 0 where
  finedb_ok err_memory err_network err_server err_zip : FinedbResult

-- `finedb_client_t`, without the host's name and port; `sock` is `none` for -1. Its socket stands
-- beside it, and the results of the coming allocations (behind the listed ones, they succeed).
pub record Client : Type 0 where
  pub sock : Option ℕ
  pub sync : Bool
  pub socket : Socket
  pub open socket use *
  pub allocs : List Bool

unfoldable pub finedb_sync : Client → Client
finedb_sync c = record c { sync = true }

unfoldable pub finedb_async : Client → Client
finedb_async c = record c { sync = false }

all_sent : ℕ → Option ℕ → Bool
all_sent expected none = false
all_sent expected (some rc) = rc == expected

-- `sendmsg` or `write`, and whether its result is the length of the message.
unfoldable pub send : Bytes → Client → Bool × Client
unfolding all_sent
send msg c = elim c.sock [
  | none ↦ (false, c)
  | some fd ↦ let r = sendmsg msg c.socket in (all_sent (length msg) r.0, record c { socket = r.1 })
]

-- What `read` of one byte returns, and what it leaves.
unfoldable pub next_byte : List Recv → Option ℕ × List Recv
next_byte [] = (none, [])
next_byte (recv_error ∷ rest) = (none, rest)
next_byte (received [] ∷ rest) = (none, rest)
next_byte (received (x ∷ []) ∷ rest) = (some x, rest)
next_byte (received (x ∷ y ∷ ys) ∷ rest) = (some x, received (y ∷ ys) ∷ rest)

unfoldable pub read_code : Client → Option ℕ × Client
read_code c = elim c.sock [
  | none ↦ (none, c)
  | some fd ↦
      let r = next_byte c.recvs in (r.0, record c { socket = record c.socket { recvs = r.1 } })
]

-- The result that a response code stands for; `none` is a code that was not received.
unfoldable pub result_of : Option ℕ → FinedbResult
result_of none = err_network
result_of (some code) =
    if response_status code == response_code resp_ok then finedb_ok else err_server

-- A request whose response is one byte.
unfoldable pub exchange : Bytes → Client → FinedbResult × Client
exchange msg c =
    let s = send msg c in
    let r = read_code s.1 in if s.0 then (result_of r.0, r.1) else (err_network, s.1)

-- `_send_simple_request`, and the test of the response in its callers.
unfoldable pub send_simple_request : Command → Client → FinedbResult × Client
send_simple_request command = exchange (command_code command ∷ [])

unfoldable pub finedb_start : Client → FinedbResult × Client
finedb_start = send_simple_request Command.start

unfoldable pub finedb_stop : Client → FinedbResult × Client
finedb_stop = send_simple_request Command.stop

unfoldable pub finedb_ping : Client → FinedbResult × Client
finedb_ping = send_simple_request Command.ping

-- The name's length is cast to `unsigned char`. Without a name, the second byte is the zero that
-- YMALLOC has put there.
abbrev pub setdb_fields : Option Bytes → Bytes
setdb_fields none = 0 ∷ []
setdb_fields (some name) = (length (c_string name) % 256) ∷ c_string name

unfoldable pub finedb_setdb : Option Bytes → Client → FinedbResult × Client
finedb_setdb dbname = exchange (command_code Command.setdb ∷ setdb_fields dbname)

abbrev pub with_sync : Bool → ℕ → ℕ
with_sync sync code = if sync then request_add_sync code else code

abbrev pub del_request : Bool → Bytes → Bytes
del_request sync key = with_sync sync (command_code Command.del) ∷ (htons (length key) ++ key)

unfoldable pub finedb_del : Bytes → Client → FinedbResult × Client
finedb_del key c = exchange (del_request c.sync key) c

-- The data is the compressed one.
abbrev pub put_request : Bool → Bytes → Bytes → Bytes
put_request sync key z =
    with_sync sync (request_add_compressed (command_code Command.put))
    ∷ (htons (length key) ++ (key ++ (htonl (length z) ++ z)))

next_alloc : List Bool → Client → Bool × Client
next_alloc [] c = (true, c)
next_alloc (ok ∷ rest) c = (ok, record c { allocs = rest })

unfoldable pub malloc : Client → Bool × Client
unfolding next_alloc
malloc c = next_alloc c.allocs c

module _ (zip : Snappy) where
  send_zipped : Bytes → Option Bytes → Client → FinedbResult × Client
  send_zipped key none c = (err_zip, c)
  send_zipped key (some z) c = exchange (put_request c.sync key z) c

  -- `_send_key_data`, which does not use create_only and update_only: the lines that would are not
  -- compiled. The first allocation is that of `snappy_init_env`.
  unfoldable pub send_key_data : Bool → Bool → Bytes → Bytes → Client → FinedbResult × Client
  unfolding send_zipped
  send_key_data create_only update_only key value c =
      let a = malloc c in
      let b = malloc a.1 in
      if a.0
      then if b.0 then send_zipped key (zip.snappy_compress value) b.1 else (err_memory, b.1)
      else (err_network, a.1)

  unfoldable pub finedb_put : Bytes → Bytes → Client → FinedbResult × Client
  finedb_put = send_key_data false false

  unfoldable pub finedb_add : Bytes → Bytes → Client → FinedbResult × Client
  finedb_add = send_key_data true false

  unfoldable pub finedb_update : Bytes → Bytes → Client → FinedbResult × Client
  finedb_update = send_key_data false true
