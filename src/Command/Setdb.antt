-- ===== src/Command/Setdb.antt =====
-- src/server/command_setdb.c
use fine_db.Prelude.{ℕ, none, some, [], ◌∷◌, Bytes, ◌==◌, if◌then◌else◌}
use fine_db.Yerr.{Yerr, yenoerr}
use fine_db.Exec.{pure, call, label, modify, ◌>>=◌, ◌>>◌}
use fine_db.Wire.{c_string}
use fine_db.Lmdb.{Name}
use fine_db.Server.{Libraries, M, connection_send_ok, read, ymalloc, server_error}
use fine_db.Command.Reply.{Handler}

module _ (lib : Libraries) where
  unfoldable pub set_dbname : Name → M lib (Unit {0})
  set_dbname n = modify λ s. record s { thread = record s.thread { dbname = n } }

  -- The value of one byte that was read.
  byte : Bytes → ℕ
  byte [] = 0
  byte (x ∷ xs) = x

  -- The name's buffer has one zero byte more than the name, so it is read as a C string.
  unfoldable pub read_dbname : ℕ → M lib (Unit {0})
  read_dbname len =
      if len == 0
      then pure tt
      else do name ← read lib len; ymalloc lib; set_dbname (some (c_string name))

  setdb_body : M lib Yerr
  unfolding byte
  setdb_body = do
    len ← read lib 1
    set_dbname none
    read_dbname (byte len)
    _r ← call (connection_send_ok lib)
    pure yenoerr

  unfoldable pub command_setdb : Handler lib
  unfolding setdb_body
  command_setdb sync compress serialized = label setdb_body (server_error lib)
