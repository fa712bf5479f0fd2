-- ===== src/Server.antt =====
-- A connection thread of the server: its state, and how it reads requests and sends responses
-- (src/server/connection_thread.c, connection_thread.h and writer_thread.h).
pub mod Reading
pub mod Sending
pub mod Supply
pub mod Sample
mod Tests
use fine_db.Prelude.{
  ℕ, ◌+◌, ◌≡◌, Bool, true, false, Option, none, some, List, [], ◌∷◌, ◌++◌, Bytes, length, take, ltb,
  if◌then◌else◌,
}
use fine_db.Yerr.{Yerr, yenoerr, yeio, yeconnreset}
use fine_db.Exec.{Exec, pure, jump, gets, call, ◌>>=◌, ◌>>◌}
use fine_db.Wire.{htonl}
use fine_db.Protocol.{Response, resp_ok, server, code_byte}
use fine_db.Lmdb.{Lmdb, Name}
use fine_db.Dynabin.{Dynabin}
use fine_db.Snappy.{Snappy}
use fine_db.Socket.{Socket, Recv, sendmsg}
use fine_db.Socket.Read.{read_loop}

-- The libraries that the program is linked with.
pub record Libraries : Type 1 where
  pub lmdb : Lmdb
  pub open lmdb use *
  pub dynabin : Dynabin
  pub open dynabin use *
  pub snappy : Snappy
  pub open snappy use *

-- `writer_msg_t`, with the fields that are set for each type of action.
pub data WriterMsg : Type 0 where
  write_put : Name → Bytes → Bytes → Bool → WriterMsg
  write_del : Name → Bytes → WriterMsg
  write_drop : Name → WriterMsg

-- `tcp_thread_t`: `fd` is `none` for -1, a name or a transaction is `none` for NULL. The thread's
-- identifier, the writer's socket and the pointer to the FineDB structure never change.
pub record Thread (Txn : Type 0) : Type 0 where
  pub fd : Option ℕ
  pub dbname : Name
  pub transaction : Option Txn

-- What a thread works on: itself, its buffer of unread bytes, its client's socket, the environment
-- of the database, the messages that the writer thread has not taken yet, oldest first; and the
-- results of the coming allocations and `nn_send` calls (behind the listed ones, they succeed).
pub record State (lib : Libraries) : Type 0 where
  pub thread : Thread lib.Txn
  pub open thread use *
  pub buff : lib.Buffer
  pub socket : Socket
  pub open socket use *
  pub env : lib.Env
  pub queue : List WriterMsg
  pub allocs : List Bool
  pub pushes : List Bool
  -- What a local variable of type MDB_dbi holds before it is set.
  pub unset : lib.Dbi

module _ (lib : Libraries) where
  open lib use {bytes, ydynabin_forward}

  abbrev pub M : Type 0 → Type 0
  M A = Exec (State lib) A

  -- Fills the buffer up to a size, from the client's socket.
  unfoldable pub connection_read_data : ℕ → State lib → Yerr × State lib
  connection_read_data size s = elim s.fd [
    | none ↦ (yeconnreset, s)
    | some fd ↦
        let r = read_loop lib.dynabin size s.recvs s.buff in
        (r.0, record s { socket = record s.socket { recvs = r.1 }; buff = r.2 })
  ]

  forward : ℕ → M Bytes
  forward n s = (some (take n (bytes s.buff)), record s { buff = ydynabin_forward s.buff n })

  unless_error : Yerr → M (Unit {0})
  unless_error yenoerr = pure tt
  unless_error e = jump

  -- The step that every handler takes to read so many bytes: connection_read_data, `goto error` if
  -- it fails, and the bytes that ydynabin_forward steps over.
  unfoldable pub read : ℕ → M Bytes
  unfolding connection_read_data forward unless_error
  read n = do code ← call (connection_read_data n); unless_error code; forward n

  -- A result of sendmsg, compared with what was to be sent.
  sent_all : ℕ → Option ℕ → Yerr
  sent_all expected none = yeio
  sent_all expected (some rc) =
      if ltb rc expected then yeio else if ltb expected rc then yeio else yenoerr

  abbrev pub payload : Option Bytes → Bytes
  payload none = []
  payload (some x) = htonl (length x) ++ x

  -- The data is `none` where the pointer is NULL.
  unfoldable pub connection_send_response :
      Response → Bool → Bool → Option Bytes → State lib → Yerr × State lib
  unfolding sent_all
  connection_send_response code serialized compressed x s = elim s.fd [
    | none ↦ (yeio, s)
    | some fd ↦
        let msg = code_byte code serialized compressed ∷ payload x in
        let r = sendmsg msg s.socket in (sent_all (length msg) r.0, record s { socket = r.1 })
  ]

  -- CONNECTION_SEND_OK and CONNECTION_SEND_ERROR.
  unfoldable pub connection_send_ok : State lib → Yerr × State lib
  connection_send_ok = connection_send_response resp_ok false false none

  unfoldable pub connection_send_error : Response → State lib → Yerr × State lib
  connection_send_error err = connection_send_response err false false none

  draw_alloc : List Bool → State lib → Bool × State lib
  draw_alloc [] s = (true, s)
  draw_alloc (ok ∷ rest) s = (ok, record s { allocs = rest })

  unless_null : Bool → M (Unit {0})
  unless_null true = pure tt
  unless_null false = jump

  -- YMALLOC, with `goto error` when it returns NULL.
  unfoldable pub ymalloc : M (Unit {0})
  unfolding draw_alloc unless_null
  ymalloc = do ok ← call (λ s. draw_alloc s.allocs s); unless_null ok

  -- `thread->dbname ? strdup(thread->dbname) : NULL`, whose result the handlers do not test.
  copy_name : Name → State lib → Name × State lib
  copy_name none s = (none, s)
  copy_name (some n) s = let r = draw_alloc s.allocs s in (if r.0 then some n else none, r.1)

  unfoldable pub strdup_dbname : M Name
  unfolding draw_alloc copy_name
  strdup_dbname = call (λ s. copy_name s.dbname s)

  draw_push : List Bool → State lib → Bool × State lib
  draw_push [] s = (true, s)
  draw_push (ok ∷ rest) s = (ok, record s { pushes = rest })

  -- nn_send on the writer's socket, with `goto error` when it fails.
  unfoldable pub nn_send : WriterMsg → M (Unit {0})
  unfolding draw_push unless_null
  nn_send msg = do
    ok ← call (λ s. draw_push s.pushes s)
    unless_null ok
    λ s. (some tt, record s { queue = s.queue ++ msg ∷ [] })

  -- A call of database.c on the thread's environment.
  unfoldable pub on_env : {A : Type 0} → (State lib → lib.Env → A × lib.Env) → M A
  on_env m = call λ s. let r = m s s.env in (r.0, record s { env = r.1 })

  -- The label `error` of the handlers.
  unfoldable pub server_error : State lib → Yerr × State lib
  server_error s = let r = connection_send_error server s in (yeio, r.1)
