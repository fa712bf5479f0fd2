-- ===== src/Command/Get.antt =====
-- src/server/command_get.c. The allocation of the uncompressed data is not tested there: if it fails
-- the process ends, and that is not modelled.
use fine_db.Prelude.{Bool, true, false, Option, none, some, [], ◌∷◌, Bytes}
use fine_db.Yerr.{Yerr, yenoerr, yenodata}
use fine_db.Exec.{pure, jump, call, label, ◌>>=◌}
use fine_db.Protocol.{resp_ok, bad_name}
use fine_db.Database.{database_get}
use fine_db.Server.{
  Libraries, M, connection_send_response, connection_send_error, on_env, server_error,
}
use fine_db.Command.Reply.{Handler, read_key}

module _ (lib : Libraries) where
  abbrev pub unzipped : Option Bytes → M lib (Option Bytes)
  unzipped none = jump
  unzipped (some plain) = pure (some plain)

  -- `some` data of length 0 is sent as it is; NULL does not come with YENOERR.
  unfoldable pub to_send : Bool → Option Bytes → M lib (Option Bytes)
  to_send compress none = pure none
  to_send compress (some []) = pure (some [])
  to_send true (some (x ∷ xs)) = pure (some (x ∷ xs))
  to_send false (some (x ∷ xs)) = unzipped (lib.snappy_uncompress (x ∷ xs))

  send_data : Bool → Bool → Option Bytes → M lib Yerr
  send_data compress serialized found = do
    plain ← to_send compress found
    call (connection_send_response lib resp_ok serialized compress plain)

  unfoldable pub get_reply : Bool → Bool → Yerr × Option Bytes → M lib Yerr
  unfolding send_data
  get_reply compress serialized (yenoerr, found) = send_data compress serialized found
  get_reply compress serialized (yenodata, found) = do
    _r ← call (connection_send_error lib bad_name)
    pure yenoerr
  get_reply compress serialized (e, found) = jump

  get_body : Bool → Bool → M lib Yerr
  unfolding get_reply
  get_body compress serialized = do
    key ← read_key lib
    r ← on_env lib (λ s. database_get lib.lmdb s.unset s.transaction s.dbname key)
    get_reply compress serialized r

  unfoldable pub command_get : Handler lib
  unfolding get_body
  command_get sync compress serialized = label (get_body compress serialized) (server_error lib)
