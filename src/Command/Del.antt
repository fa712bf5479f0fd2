-- ===== src/Command/Del.antt =====
-- src/server/command_del.c
use fine_db.Prelude.{Bool, Bytes, if◌then◌else◌}
use fine_db.Yerr.{Yerr, yenoerr}
use fine_db.Exec.{pure, label, ◌>>=◌, ◌>>◌}
use fine_db.Database.{database_del}
use fine_db.Server.{Libraries, M, write_del, ymalloc, strdup_dbname, nn_send, on_env, server_error}
use fine_db.Command.Reply.{Handler, respond_early, respond, read_key}

module _ (lib : Libraries) where
  -- The writer thread will remove the key.
  unfoldable pub del_later : Bytes → M lib Yerr
  del_later key = do name ← strdup_dbname lib; nn_send lib (write_del name key); pure yenoerr

  unfoldable pub del_now : Bytes → M lib Yerr
  del_now key = do
    code ← on_env lib (λ s. database_del lib.lmdb s.transaction s.dbname key)
    respond lib code

  del_body : Bool → M lib Yerr
  unfolding del_later del_now
  del_body sync = do
    key ← read_key lib
    respond_early lib sync
    ymalloc lib
    if sync then del_now key else del_later key

  unfoldable pub command_del : Handler lib
  unfolding del_body
  command_del sync compress serialized = label (del_body sync) (server_error lib)
