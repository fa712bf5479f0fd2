-- ===== src/Writer.antt =====
-- src/server/writer_thread.c: the thread that makes the asynchronous changes.
pub mod Replay
pub mod Later
pub mod Interleaved
pub mod Queues
pub mod Snapshot
mod Tests
use fine_db.Prelude.{Bool, true, false, Option, none, some, List, [], ◌∷◌}
use fine_db.Yerr.{Yerr, yenoerr}
use fine_db.Lmdb.{Lmdb}
use fine_db.Database.{database_put, database_del}
use fine_db.Server.{WriterMsg, write_put, write_del, write_drop}

is_ok : Yerr → Bool
is_ok yenoerr = true
is_ok e = false

module _ (l : Lmdb) where
  open l use {Env}

  -- The work on one message. The Boolean says whether the log tells that the data is written or
  -- removed. No branch is for WRITE_DROP.
  unfoldable pub writer_step : WriterMsg → Env → Bool × Env
  unfolding is_ok
  writer_step (write_put dbname name value create_only) e =
      let r = database_put l none create_only dbname name value e in (is_ok r.0, r.1)
  writer_step (write_del dbname name) e =
      let r = database_del l none dbname name e in (is_ok r.0, r.1)
  writer_step (write_drop dbname) e = (false, e)

  -- The loop on what nn_recv returns, `none` where it fails, with what the log tells of each round.
  -- The loop in the source has no end; this is its run on the first so many results.
  unfoldable pub writer_loop : List (Option WriterMsg) → Env → List Bool × Env
  unfolding writer_step
  writer_loop [] e = ([], e)
  writer_loop (none ∷ msgs) e = let r = writer_loop msgs e in (false ∷ r.0, r.1)
  writer_loop (some msg ∷ msgs) e =
      let s = writer_step msg e in let r = writer_loop msgs s.1 in (s.0 ∷ r.0, r.1)
