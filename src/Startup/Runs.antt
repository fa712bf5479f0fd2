-- ===== src/Startup/Runs.antt =====
-- When the server comes up.
use fine_db.Prelude.{
  Option, Option-cases, inl, inr, none, some, Bytes, ◌≡◌, Bool, true, false, not, ◌&&◌, ◌||◌, ltb,
  arith,
}
use fine_db.Exec.{◌>>=◌}
use fine_db.Startup.CommandLine.{Settings}
use fine_db.Startup.Path.{database_path}
use fine_db.Startup.{
  Step, mdb_env_create, mdb_env_open, threads_socket, writer_thread, socket, bind, listen,
  server_create_listening_socket, null_pointer, set_mapsize, set_maxreaders, set_maxdbs, Started,
  exits, running, finedb_init, database_open,
}

abbrev pub is_running : Started → Bool
is_running (exits code) = false
is_running (running made) = true
is_running null_pointer = false

-- The calls that the settings need, each of which must succeed; the connection threads are not among
-- them.
abbrev pub needed : (Step → Bool) → Settings → Option Bytes → Bool
needed ok o none = false
needed ok o (some path) =
    ok mdb_env_create
    && ok (set_mapsize o.mapsize)
    && (not (ltb 126 o.nbr_threads) || ok (set_maxreaders o.nbr_threads))
    && (not (ltb 1 o.nbr_dbs) || ok (set_maxdbs o.nbr_dbs))
    && ok (mdb_env_open path)
    && ok threads_socket
    && ok writer_thread
    && ok socket
    && ok (bind o.port)
    && ok listen

-- The server comes up exactly if the path of its database can be told and each of the calls that its
-- settings need succeeds, however many of its connection threads could be created, and whether or
-- not the options of its socket could be set.
pub finedb_init_runs :
    (ok : Step → Bool) (real_path : Option Bytes) (o : Settings)
    → is_running (finedb_init ok real_path o).0 ≡ needed ok o (database_path o.db_path real_path)
unfolding finedb_init database_open server_create_listening_socket ◌>>=◌
finedb_init_runs ok real_path o = elim (Option-cases (database_path o.db_path real_path)) [
  | inl null ↦ ground (arith, null)
  | inr (path, told) ↦ ground (arith, told)
]
