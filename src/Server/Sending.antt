-- ===== src/Server/Sending.antt =====
-- What the parts of a handler do when nothing that they call fails.
use fine_db.Prelude.{
  ◌≡◌, ◌≢◌, refl, Bool, false, Option, none, some, List, [], ◌∷◌, ◌++◌, Bytes, arith,
}
use fine_db.Yerr.{yenoerr, yeio}
use fine_db.Exec.{◌>>=◌}
use fine_db.Protocol.{server, Response, resp_ok, code_byte}
use fine_db.Socket.{Recv, sendmsg_all}
use fine_db.Server.{
  server_error, connection_send_error, Libraries, State, WriterMsg, payload,
  connection_send_response, connection_send_ok, ymalloc, strdup_dbname, nn_send, on_env,
}
use fine_db.Server.Reading.{taken}

module _ (lib : Libraries) where
  -- A connection on which the coming allocations and transmissions succeed.
  pub record IsHealthy (s : State lib) : Type 0 where
    pub connected : s.fd ≢ none
    pub memory : s.allocs ≡ []
    pub line : s.sends ≡ []

  -- The state after a message to the client.
  abbrev pub replied : State lib → Bytes → State lib
  replied s msg = record s { socket = record s.socket { sent = s.sent ++ msg } }

  -- The state after a message to the writer thread.
  abbrev pub queued : State lib → WriterMsg → State lib
  queued s msg = record s { queue = s.queue ++ msg ∷ [] }

  abbrev pub response : Response → Bool → Bool → Option Bytes → Bytes
  response code serialized compressed x = code_byte code serialized compressed ∷ payload lib x

  pub send_response-healthy :
      (code : Response) (serialized compressed : Bool) (x : Option Bytes) (s : State lib)
      → IsHealthy s
      → connection_send_response lib code serialized compressed x s
        ≡ (yenoerr, replied s (response code serialized compressed x))
  unfolding connection_send_response
  send_response-healthy code serialized compressed x s h =
      ground (arith, sendmsg_all (response code serialized compressed x) s.socket)

  pub send_ok-healthy :
      (s : State lib)
      → IsHealthy s
      → connection_send_ok lib s ≡ (yenoerr, replied s (response resp_ok false false none))
  unfolding connection_send_ok
  send_ok-healthy s h = send_response-healthy resp_ok false false none s h

  pub ymalloc-healthy : (s : State lib) → s.allocs ≡ [] → ymalloc lib s ≡ (some tt, s)
  unfolding ymalloc ◌>>=◌
  ymalloc-healthy s h = ground arith

  pub strdup-healthy : (s : State lib) → s.allocs ≡ [] → strdup_dbname lib s ≡ (some s.dbname, s)
  unfolding strdup_dbname ◌>>=◌
  strdup-healthy s h = ground arith

  pub nn_send-healthy :
      (msg : WriterMsg) (s : State lib)
      → s.pushes ≡ []
      → nn_send lib msg s ≡ (some tt, queued s msg)
  unfolding nn_send ◌>>=◌
  nn_send-healthy msg s h = ground arith

  -- The state after a call of database.c.
  abbrev pub stored : State lib → lib.Env → State lib
  stored s e = record s { env = e }

  pub on_env_lem :
      {A : Type 0} (m : State lib → lib.Env → A × lib.Env) (s : State lib)
      → on_env lib m s ≡ (some (m s s.env).0, stored s (m s s.env).1)
  unfolding on_env ◌>>=◌
  on_env_lem m s = refl

  -- Reading and calls of database.c change nothing that a later step needs.
  pub taken-IsHealthy :
      {s : State lib} (b : lib.Buffer) (rs : List Recv) → IsHealthy s → IsHealthy (taken lib s b rs)
  taken-IsHealthy b rs h = record { connected = h.connected; memory = h.memory; line = h.line }

  pub stored-IsHealthy : {s : State lib} (e : lib.Env) → IsHealthy s → IsHealthy (stored s e)
  stored-IsHealthy e h = record { connected = h.connected; memory = h.memory; line = h.line }

  pub replied-IsHealthy : {s : State lib} (msg : Bytes) → IsHealthy s → IsHealthy (replied s msg)
  replied-IsHealthy msg h = record { connected = h.connected; memory = h.memory; line = h.line }

  pub server_error-healthy :
      (s : State lib)
      → IsHealthy s
      → server_error lib s ≡ (yeio, replied s (response server false false none))
  unfolding server_error connection_send_error
  server_error-healthy s h = ground (arith, send_response-healthy server false false none s h)
