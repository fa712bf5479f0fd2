-- ===== src/Startup/Tests.antt =====
-- Runs of the start.
use fine_db.Prelude.{
  ◌^◌, ◌-◌, Option, Bytes, suc, leb, ◌≡◌, refl, Bool, true, false, none, some, arith, List, [], ◌∷◌,
  leb,
}
use fine_db.Exec.{◌>>=◌}
use fine_db.Startup.CommandLine.{
  Settings, default_settings, Flag, threads_flag, dbs_flag, size_flag, port_flag, path_flag,
  seconds_flag, debug_flag, parse_options, parse_options_reads, set_option, atoi, strtol, cast,
}
use fine_db.Startup.{
  Step, connection_thread, exits, running, finedb_init, database_open, create_threads, server_loop,
  writer_thread, server_create_listening_socket, null_pointer, main, signal_handler, mdb_env_close,
}
use fine_db.Startup.Path.{database_path, slash_default_db_path}
use fine_db.Startup.Runs.{is_running, needed, finedb_init_runs}

-- `-t 3 -p -1 -d`: a negative port wraps around.
abbrev flags : List Flag
flags = threads_flag (51 ∷ []) ∷ port_flag (45 ∷ 49 ∷ []) ∷ debug_flag ∷ []

abbrev chosen : Settings
chosen = record default_settings { nbr_threads = 3; port = 65535 }

flags_read : parse_options flags default_settings ≡ some chosen
unfolding parse_options set_option atoi strtol cast
flags_read = refl

-- Behind white space and a sign, up to what is no digit.
number_in_text : atoi (32 ∷ 9 ∷ 43 ∷ 52 ∷ 50 ∷ 120 ∷ 49 ∷ []) ≡ 42
unfolding atoi strtol
number_in_text = refl

-- `-s 4294967296`: the int is 0.
abbrev four_gigabytes : List Flag
four_gigabytes = size_flag (52 ∷ 50 ∷ 57 ∷ 52 ∷ 57 ∷ 54 ∷ 55 ∷ 50 ∷ 57 ∷ 54 ∷ []) ∷ []

no_map :
    parse_options four_gigabytes default_settings ≡ some (record default_settings { mapsize = 0 })
unfolding parse_options set_option atoi strtol cast
no_map = refl

-- `-s 2147483648`: the int is negative.
huge_map :
    parse_options
      (size_flag (50 ∷ 49 ∷ 52 ∷ 55 ∷ 52 ∷ 56 ∷ 51 ∷ 54 ∷ 52 ∷ 56 ∷ []) ∷ [])
      default_settings
    ≡ some (record default_settings { mapsize = 2 ^ 64 - 2 ^ 31 })
unfolding parse_options set_option atoi strtol cast
huge_map = refl

-- `-t 12 -n 3 -s 1000 -p 80 -f /b -i 5`.
abbrev written : Settings
written = record {
  nbr_threads = 12;
  nbr_dbs = 3;
  mapsize = 1000;
  port = 80;
  timeout = 5;
  db_path = some (47 ∷ 98 ∷ []);
}

parse_options_reads_example :
    parse_options
      (threads_flag (49 ∷ 50 ∷ [])
        ∷ dbs_flag (51 ∷ [])
        ∷ size_flag (49 ∷ 48 ∷ 48 ∷ 48 ∷ [])
        ∷ port_flag (56 ∷ 48 ∷ [])
        ∷ path_flag (47 ∷ 98 ∷ [])
        ∷ seconds_flag (53 ∷ [])
        ∷ [])
      default_settings
    ≡ some written
parse_options_reads_example =
    parse_options_reads (49 ∷ 50 ∷ []) (51 ∷ []) (49 ∷ 48 ∷ 48 ∷ 48 ∷ []) (56 ∷ 48 ∷ []) (53 ∷ [])
      (47 ∷ 98 ∷ []) default_settings written
      (1 ∷ 2 ∷ [], (omega arith, (omega arith, tt)), refl, refl, omega arith)
      (3 ∷ [], (omega arith, tt), refl, refl, omega arith)
      (
        1 ∷ 0 ∷ 0 ∷ 0 ∷ [],
        (omega arith, (omega arith, (omega arith, (omega arith, tt)))),
        refl,
        refl,
        omega arith,
      )
      (8 ∷ 0 ∷ [], (omega arith, (omega arith, tt)), refl, refl, omega arith)
      (5 ∷ [], (omega arith, tt), refl, refl, omega arith) refl

-- All calls but those that create the second connection thread succeed.
abbrev but_one : Step → Bool
but_one (connection_thread (suc i)) = leb 1 i
but_one step = true

-- The program is /b/f.
abbrev program : Option Bytes
program = some (47 ∷ 98 ∷ 47 ∷ 102 ∷ [])

two_threads : (finedb_init but_one program chosen).0 ≡ running 2
unfolding finedb_init database_open create_threads server_create_listening_socket database_path
    ◌>>=◌
two_threads = refl

abbrev no_writer : Step → Bool
no_writer writer_thread = false
no_writer step = true

without_writer : (finedb_init no_writer program chosen).0 ≡ exits 3
unfolding finedb_init database_open create_threads server_create_listening_socket database_path
    ◌>>=◌
without_writer = refl

finedb_init_runs_example :
    is_running (finedb_init but_one program chosen).0
    ≡ needed but_one chosen (database_path chosen.db_path program)
finedb_init_runs_example = finedb_init_runs but_one program chosen

path_told : database_path chosen.db_path program ≡ some (47 ∷ 98 ∷ slash_default_db_path)
unfolding database_path
path_told = refl

-- Where realpath fails.
path_not_told : (finedb_init but_one none chosen).0 ≡ null_pointer
unfolding finedb_init database_path
path_not_told = refl

three_rounds :
    server_loop
      (record { run = true; accepted = some 7; pushed = true }
        ∷ record { run = true; accepted = none; pushed = true }
        ∷ record { run = false; accepted = some 8; pushed = true }
        ∷ [])
      []
    ≡ 7 ∷ []
unfolding server_loop
three_rounds = refl

-- A server with one round of its loop.
one_round :
    main but_one program flags (record { run = true; accepted = some 7; pushed = true } ∷ [])
    ≡ (running 2, (finedb_init but_one program chosen).1, 7 ∷ [])
unfolding main finedb_init database_open create_threads server_create_listening_socket database_path
    server_loop parse_options set_option atoi strtol cast ◌>>=◌
one_round = refl

-- The interruption of a server.
interrupted :
    signal_handler (some (true, writer_thread ∷ [])) ≡ (exits 0, writer_thread ∷ mdb_env_close ∷ [])
unfolding signal_handler
interrupted = refl
