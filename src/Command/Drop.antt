-- ===== src/Command/Drop.antt =====
-- src/server/command_drop.c, which the table of handlers does not name.
use fine_db.Prelude.{Bool, none, some, if◌then◌else◌}
use fine_db.Yerr.{Yerr, yenoerr}
use fine_db.Exec.{pure, jump, gets, label, ◌>>=◌, ◌>>◌}
use fine_db.Database.{database_drop}
use fine_db.Lmdb.{Name}
use fine_db.Server.{Libraries, M, write_drop, ymalloc, strdup_dbname, nn_send, on_env, server_error}
use fine_db.Command.Reply.{Handler, respond_early, respond}

module _ (lib : Libraries) where
  unless_default : Name → M lib (Unit {0})
  unless_default none = jump
  unless_default (some n) = pure tt

  drop_later : M lib Yerr
  drop_later = do name ← strdup_dbname lib; nn_send lib (write_drop name); pure yenoerr

  drop_now : M lib Yerr
  drop_now = do
    code ← on_env lib (λ s. database_drop lib.lmdb s.transaction s.dbname)
    respond lib code

  drop_body : Bool → M lib Yerr
  unfolding unless_default drop_later drop_now
  drop_body sync = do
    name ← gets (λ s. s.dbname)
    unless_default name
    respond_early lib sync
    ymalloc lib
    if sync then drop_now else drop_later

  unfoldable pub command_drop : Handler lib
  unfolding drop_body
  command_drop sync compress serialized = label (drop_body sync) (server_error lib)
