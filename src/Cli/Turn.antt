-- ===== src/Cli/Turn.antt =====
-- One turn of the main loop of the command-line client (src/cli/finedb-cli.c): a line is taken apart
-- and its command is run.
use fine_db.Prelude.{ℕ, true, false, Option, none, some, List, [], ◌∷◌, Bytes, if◌then◌else◌}
use fine_db.Dynabin.{Dynabin}
use fine_db.Snappy.{Snappy}
use fine_db.Socket.{Socket}
use fine_db.Client.{Client, FinedbResult, finedb_ok}
use fine_db.Cli.{Cli, finedb_connect, Printed, command_get, command_del, command_send_data}
use fine_db.Cli.Line.{is_space, ltrim}
use fine_db.Cli.Words.{
  Word, exit_word, help_word, sync_word, async_word, use_word, get_word, del_word, put_word,
  add_word, update_word, inc_word, dec_word, start_word, stop_word, ping_word, autocheck_word,
  find_word,
}
use fine_db.Cli.Session.{
  Message, Told, bad_command, usage, command_sync, command_async, command_use, command_inc,
  command_dec, command_start, command_stop, command_ping, command_autocheck,
}

-- What a turn shows; or the client exits.
pub data Shown : Type 0 where
  printed : Printed → Shown
  messages : List Message → Shown
  leaves : Shown

of_key : Printed × Cli → Shown × Cli
of_key (p, cli) = (printed p, cli)

of_session : Told → Shown × Cli
of_session (ms, cli) = (messages ms, cli)

-- The command's name, and what stands behind the space after it; `none` where the line ends.
unfoldable pub cut_word : Bytes → Bytes × Option Bytes
unfolding is_space
cut_word [] = ([], none)
cut_word (c ∷ cs) = let r = cut_word cs in if is_space c then ([], some cs) else (c ∷ r.0, r.1)

-- The zero byte is written behind the name and stepped over also where the line ends there. Then the
-- arguments are what the memory behind the line holds: `beyond`.
arguments : Bytes → Option Bytes → Bytes
unfolding ltrim
arguments beyond none = ltrim beyond
arguments beyond (some rest) = ltrim rest

-- How `main` ends: with an exit code, or with what was shown.
pub data Ended : Type 0 where
  exits : ℕ → Ended
  shows : List Shown → Ended

initial : Client → List (Option (ℕ × Socket)) → Cli
initial c hosts = record {
  finedb = c;
  dbname = none;
  autocheck = true;
  in_transaction = false;
  reachable = hosts;
}

module _ (dyn : Dynabin) (zip : Snappy) where
  on_word : Option Word → Bytes → Cli → Shown × Cli
  unfolding of_key of_session
  on_word none pt cli = (messages (bad_command ∷ []), cli)
  on_word (some exit_word) pt cli = (leaves, cli)
  on_word (some help_word) pt cli = (messages (usage ∷ []), cli)
  on_word (some sync_word) pt cli = of_session (command_sync cli)
  on_word (some async_word) pt cli = of_session (command_async cli)
  on_word (some use_word) pt cli = of_session (command_use pt cli)
  on_word (some get_word) pt cli = of_key (command_get dyn zip pt cli)
  on_word (some del_word) pt cli = of_key (command_del pt cli)
  on_word (some put_word) pt cli = of_key (command_send_data dyn zip false false pt cli)
  on_word (some add_word) pt cli = of_key (command_send_data dyn zip true false pt cli)
  on_word (some update_word) pt cli = of_key (command_send_data dyn zip false true pt cli)
  on_word (some inc_word) pt cli = of_session (command_inc pt cli)
  on_word (some dec_word) pt cli = of_session (command_dec pt cli)
  on_word (some start_word) pt cli = of_session (command_start cli)
  on_word (some stop_word) pt cli = of_session (command_stop cli)
  on_word (some ping_word) pt cli = of_session (command_ping cli)
  on_word (some autocheck_word) pt cli = of_session (command_autocheck pt cli)

  -- A line without a command is passed over.
  on_command : Bytes → Bytes → Cli → Shown × Cli
  unfolding on_word find_word
  on_command [] pt cli = (messages [], cli)
  on_command (c ∷ cs) pt cli = on_word (find_word (c ∷ cs)) pt cli

  unfoldable pub run_line : Bytes → Bytes → Cli → Shown × Cli
  unfolding on_command cut_word arguments ltrim
  run_line beyond line cli =
      let r = cut_word (ltrim line) in on_command r.0 (arguments beyond r.1) cli

  -- The loop: the next line is read only if the client goes on.
  unfoldable pub run_lines : List (Bytes × Bytes) → Cli → List Shown × Cli
  run_lines [] cli = ([], cli)
  run_lines ((beyond, line) ∷ lines) cli =
      let r = run_line beyond line cli in
      let rest = run_lines lines r.1 in
      elim r.0 [ leaves ↦ (leaves ∷ [], r.1) | _ ↦ (r.0 ∷ rest.0, rest.1) ]

  -- With exit code 1, there is no memory for the client; with 2, the server cannot be reached.
  on_connected : FinedbResult × Cli → List (Bytes × Bytes) → Ended
  unfolding run_lines
  on_connected (finedb_ok, cli) lines = shows (run_lines lines cli).0
  on_connected (e, cli) lines = exits 2

  unfoldable pub run_client :
      Option Client → List (Option (ℕ × Socket)) → List (Bytes × Bytes) → Ended
  unfolding on_connected initial
  run_client none reachable lines = exits 1
  run_client (some c) reachable lines = on_connected (finedb_connect (initial c reachable)) lines
