-- ===== src/Command/Reply.antt =====
-- What several handlers (src/server/command_*.c) do alike.
use fine_db.Prelude.{Bool, false, none, Bytes, if◌then◌else◌}
use fine_db.Yerr.{Yerr, yenoerr}
use fine_db.Exec.{pure, call, ◌>>=◌, ◌>>◌}
use fine_db.Wire.{ntohs}
use fine_db.Protocol.{Response, resp_ok, bad_name}
use fine_db.Server.{
  Libraries, State, M, connection_send_response, connection_send_ok, read, ymalloc,
}

-- `answer ? RESP_OK : RESP_ERR_BAD_NAME`, for a call of database.c.
unfoldable pub answer : Yerr → Response
answer yenoerr = resp_ok
answer e = bad_name

module _ (lib : Libraries) where
  -- A handler's arguments: sync, compress, serialized.
  abbrev pub Handler : Type 0
  Handler = Bool → Bool → Bool → State lib → Yerr × State lib

  -- The immediate response of a request that is not synchronous; its result is not tested.
  unfoldable pub respond_early : Bool → M lib (Unit {0})
  respond_early sync = if sync then pure tt else (do _r ← call (connection_send_ok lib); pure tt)

  unfoldable pub respond : Yerr → M lib Yerr
  respond code = call (connection_send_response lib (answer code) false false none)

  -- A key behind its length, copied: how DEL, GET and PUT begin.
  unfoldable pub read_key : M lib Bytes
  read_key = do key_len ← read lib 2; key ← read lib (ntohs key_len); ymalloc lib; pure key
