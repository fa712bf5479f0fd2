-- ===== src/Startup.antt =====
-- The start of the server: finedb_init (src/server/finedb.c), database_open (src/server/database.c)
-- and the loop that accepts connections (src/server/server.c).
pub mod CommandLine
pub mod Path
pub mod Runs
mod Tests
use fine_db.Prelude.{
  ℕ, zero, suc, ◌+◌, Bool, true, false, Option, none, some, List, [], ◌∷◌, ◌++◌, Bytes, ltb,
  if◌then◌else◌,
}
use fine_db.Exec.{Exec, pure, ◌>>=◌, ◌>>◌}
use fine_db.Yerr.{Yerr, yenoerr, yeio, yebadf}
use fine_db.Startup.CommandLine.{Settings, Flag, default_settings, parse_options}
use fine_db.Startup.Path.{database_path}

-- The calls that can fail, and mdb_env_close. The creation and the binding of the nanomsg socket are
-- one call.
pub data Step : Type 0 where
  mdb_env_create mdb_env_close threads_socket writer_thread : Step
  socket so_reuseaddr so_keepalive listen : Step
  set_mapsize set_maxreaders set_maxdbs connection_thread bind : ℕ → Step
  mdb_env_open : Bytes → Step

-- How the start ends: by `exit`, with so many connection threads, or in a call with a NULL pointer.
pub data Started : Type 0 where
  exits running : ℕ → Started
  null_pointer : Started

unfoldable pub database_close : List Step → List Step
database_close calls = calls ++ mdb_env_close ∷ []

-- The flag `run`, and the calls.
unfoldable pub finedb_stop : Bool × List Step → Bool × List Step
unfolding database_close
finedb_stop (run, calls) = (false, database_close calls)

-- The handler of SIGINT, with the running server, if there is one yet.
unfoldable pub signal_handler : Option (Bool × List Step) → Started × List Step
unfolding finedb_stop
signal_handler none = (exits 0, [])
signal_handler (some finedb_g) = (exits 0, (finedb_stop finedb_g).1)

-- Which calls succeed is a parameter; the state is the list of the calls made.
module _ (ok : Step → Bool) where
  perform : Step → Exec (List Step) (Unit {0})
  perform step calls = (if ok step then some tt else none, calls ++ step ∷ [])

  perform_if : Bool → Step → Exec (List Step) (Unit {0})
  unfolding perform
  perform_if true step = perform step
  perform_if false step = pure tt

  open_env : Bytes → Exec (List Step) (Unit {0})
  open_env path calls =
      if ok (mdb_env_open path)
      then (some tt, calls ++ mdb_env_open path ∷ [])
      else (none, calls ++ mdb_env_open path ∷ mdb_env_close ∷ [])

  unfoldable pub database_open : Bytes → ℕ → ℕ → ℕ → Exec (List Step) (Unit {0})
  unfolding perform perform_if open_env
  database_open path mapsize nbr_readers nbr_dbs = do
    perform mdb_env_create
    perform (set_mapsize mapsize)
    perform_if (ltb 126 nbr_readers) (set_maxreaders nbr_readers)
    perform_if (ltb 1 nbr_dbs) (set_maxdbs nbr_dbs)
    open_env path

  -- The loop that creates the connection threads, from number `i` on, `left` of them: those that
  -- cannot be created are left out.
  unfoldable pub create_threads : (i left made : ℕ) → List Step → ℕ × List Step
  create_threads i zero made calls = (made, calls)
  create_threads i (suc left) made calls =
      let more = if ok (connection_thread i) then suc made else made in
      create_threads (suc i) left more (calls ++ connection_thread i ∷ [])

  -- A failure of setsockopt is only logged. The socket is not closed where the binding fails.
  unfoldable pub server_create_listening_socket : ℕ → List Step → Yerr × List Step
  server_create_listening_socket port calls =
      let created = calls ++ socket ∷ [] in
      let bound = created ++ so_reuseaddr ∷ so_keepalive ∷ bind port ∷ [] in
      let listened : Yerr × List Step =
        (if ok listen then yenoerr else yebadf, bound ++ listen ∷ []) in
      if ok socket then (if ok (bind port) then listened else (yebadf, bound)) else (yeio, created)

  on_listen : ℕ → Yerr × List Step → Started × List Step
  on_listen made (yenoerr, calls) = (running made, calls)
  on_listen made (e, calls) = (exits 4, calls)

  start_threads : Settings → List Step → Started × List Step
  unfolding create_threads on_listen server_create_listening_socket
  start_threads o calls =
      let made = create_threads 0 o.nbr_threads 0 (calls ++ writer_thread ∷ []) in
      if ok writer_thread
      then on_listen made.0 (server_create_listening_socket o.port made.1)
      else (exits 3, database_close (calls ++ writer_thread ∷ []))

  bind_threads_socket : Settings → List Step → Started × List Step
  unfolding start_threads
  bind_threads_socket o calls =
      if ok threads_socket
      then start_threads o (calls ++ threads_socket ∷ [])
      else (exits 2, database_close (calls ++ threads_socket ∷ []))

  on_open : Settings → Option (Unit {0}) × List Step → Started × List Step
  unfolding bind_threads_socket
  on_open o (none, calls) = (exits 1, calls)
  on_open o (some t, calls) = bind_threads_socket o calls

  on_path : Settings → Option Bytes → Started × List Step
  unfolding database_open on_open
  on_path o none = (null_pointer, [])
  on_path o (some path) = on_open o (database_open path o.mapsize o.nbr_threads o.nbr_dbs [])

  -- `real_path` is what realpath returns for the program.
  unfoldable pub finedb_init : Option Bytes → Settings → Started × List Step
  unfolding on_path
  finedb_init real_path o = on_path o (database_path o.db_path real_path)

-- One round of the main loop: what the flag `run` reads, what `accept` returns, and whether the
-- hand-over to the connection threads (connection_thread_push_socket) succeeds, which is not tested.
pub record Round : Type 0 where
  pub run : Bool
  pub accepted : Option ℕ
  pub pushed : Bool

push_socket : Bool → ℕ → List ℕ → List ℕ
push_socket true fd sockets = sockets ++ fd ∷ []
push_socket false fd sockets = sockets

on_accept : Option ℕ → Bool → List ℕ → List ℕ
unfolding push_socket
on_accept none pushed sockets = sockets
on_accept (some fd) pushed sockets = push_socket pushed fd sockets

-- The sockets that wait for a connection thread, oldest first.
unfoldable pub server_loop : List Round → List ℕ → List ℕ
unfolding on_accept
server_loop [] sockets = sockets
server_loop (r ∷ rounds) sockets =
    let next = server_loop rounds (on_accept r.accepted r.pushed sockets) in
    if r.run then next else sockets

-- The main function, on the command line's options: how the start ends, the calls made, and the
-- sockets that wait for a connection thread after these rounds of the main loop.
module _ (ok : Step → Bool) where
  serve : Started × List Step → List Round → Started × List Step × List ℕ
  unfolding server_loop
  serve (running made, calls) rounds = (running made, calls, server_loop rounds [])
  serve (ended, calls) rounds = (ended, calls, [])

  on_options : Option Bytes → Option Settings → List Round → Started × List Step × List ℕ
  unfolding serve
  on_options real_path none rounds = (exits 0, [], [])
  on_options real_path (some o) rounds = serve (finedb_init ok real_path o) rounds

  unfoldable pub main : Option Bytes → List Flag → List Round → Started × List Step × List ℕ
  unfolding on_options
  main real_path flags rounds = on_options real_path (parse_options flags default_settings) rounds
