-- ===== src/Connection.antt =====
-- The table of handlers and the loop of a connection thread (src/server/connection_thread.c).
pub mod Parts
pub mod Handlers
pub mod Rounds
pub mod Untouched
pub mod Isolation
pub mod Outside
mod Tests
use fine_db.Prelude.{
  ℕ, zero, suc, Bool, true, false, ◌||◌, ◌&&◌, Option, none, some, List, [], ◌∷◌, Bytes,
  if◌then◌else◌,
}
use fine_db.Yerr.{Yerr, yenoerr}
use fine_db.Protocol.{
  protocol, request_command, request_has_sync, request_has_compressed, request_has_serialized,
}
use fine_db.Database.{database_transaction_rollback}
use fine_db.Server.{Libraries, Thread, State, read, connection_send_error}
use fine_db.Socket.{Socket}
use fine_db.Command.Reply.{Handler}
use fine_db.Command.Ping.{command_ping}
use fine_db.Command.Get.{command_get}
use fine_db.Command.Del.{command_del}
use fine_db.Command.Put.{command_put}
use fine_db.Command.Setdb.{command_setdb}
use fine_db.Command.StartStop.{command_start, command_stop}

module _ (lib : Libraries) where
  nth : {A : Type 0} → List A → ℕ → Option A
  nth [] i = none
  nth (x ∷ xs) zero = some x
  nth (x ∷ xs) (suc i) = nth xs i

  -- `_commands`, an array of 16 handlers, behind these `none`.
  unfoldable pub commands : ℕ → Option (Handler lib)
  unfolding nth
  commands = nth (
      command_ping lib
      ∷ command_get lib
      ∷ command_del lib
      ∷ command_put lib
      ∷ command_setdb lib
      ∷ command_start lib
      ∷ command_stop lib
      ∷ [])

  unfoldable pub is_some : {A : Type 0} → Option A → Bool
  is_some none = false
  is_some (some a) = true

  goes_on : Yerr → Bool
  goes_on yenoerr = true
  goes_on e = false

  -- `true` goes on to the next request, `false` is the jump to end_of_connection.
  unfoldable pub execute : Option (Handler lib) → ℕ → State lib → Bool × State lib
  unfolding is_some goes_on
  execute none request s = (false, (connection_send_error lib protocol s).1)
  execute (some func) request s =
      let sync = is_some s.transaction || request_has_sync request in
      let r = func sync (request_has_compressed request) (request_has_serialized request) s in
      (goes_on r.0, r.1)

  unfoldable pub on_request : Option Bytes → State lib → Bool × State lib
  unfolding execute commands
  on_request (some (request ∷ rest)) s = execute (commands (request_command request)) request s
  on_request _ s = (false, s)

  -- One round of the loop on incoming requests.
  unfoldable pub serve_request : State lib → Bool × State lib
  unfolding on_request
  serve_request s = let r = read lib 1 s in on_request r.0 r.1

  roll_back : Option lib.Txn → lib.Env → lib.Env
  roll_back none e = e
  roll_back (some t) e = database_transaction_rollback lib.lmdb t e

  -- `shutdown` and the freeing of the name leave nothing in the model to change.
  unfoldable pub connection_thread_disconnect : State lib → State lib
  unfolding roll_back
  connection_thread_disconnect s = elim s.fd [
    | none ↦ s
    | some fd ↦ record s {
      thread = record { fd = none; dbname = none; transaction = none };
      env = roll_back s.transaction s.env;
    }
  ]

  -- The loop ends by itself once a request fails; the fuel counts the requests.
  unfoldable pub request_loop : ℕ → State lib → State lib
  request_loop zero s = s
  request_loop (suc fuel) s =
      let r = serve_request s in elim r.0 [ true ↦ request_loop fuel r.1 | false ↦ r.1 ]

  -- What connection_thread_execution does with a connection: the requests, and the disconnection.
  unfoldable pub serve_connection : ℕ → ℕ → State lib → State lib
  unfolding request_loop connection_thread_disconnect
  serve_connection fuel fd s = connection_thread_disconnect (
      request_loop fuel
        (record s { thread = record s.thread { fd = some fd }; buff = lib.ydynabin_new }))

  abbrev pub idle : Thread lib.Txn
  idle = record { fd = none; dbname = none; transaction = none }

  -- `none` is NULL, if the thread cannot be created. YMALLOC has set the other fields to zero.
  connection_thread_new : Bool → Option (Thread lib.Txn)
  connection_thread_new created = if created then some idle else none

  -- The loop of connection_thread_execution on what nn_recv returns: a connection's descriptor, with
  -- its socket, or `none` where it fails or the descriptor is negative. It gives what was sent on each
  -- connection. The loop in the source has no end; this is its run on the first so many results.
  unfoldable pub connection_thread_execution :
      ℕ → List (Option (ℕ × Socket)) → State lib → List Bytes × State lib
  unfolding serve_connection
  connection_thread_execution fuel [] s = ([], s)
  connection_thread_execution fuel (none ∷ more) s = connection_thread_execution fuel more s
  connection_thread_execution fuel (some (fd, sock) ∷ more) s =
      let t = serve_connection fuel fd (record s { socket = sock }) in
      let r = connection_thread_execution fuel more t in (t.sent ∷ r.0, r.1)

  -- The whole of connection_thread_execution: first nn_socket and nn_connect, for the writer thread's
  -- socket and then for the main thread's. Where one of them fails the thread exits, which is `none`.
  thread_main :
      (writer_socket writer_connect main_socket main_connect : Bool)
      → ℕ
      → List (Option (ℕ × Socket))
      → State lib
      → Option (List Bytes × State lib)
  thread_main writer_socket writer_connect main_socket main_connect fuel incoming s =
      let run = some (connection_thread_execution fuel incoming s) in
      if writer_socket && writer_connect && main_socket && main_connect then run else none
