-- ===== src/Cli/Session.antt =====
-- The commands of the command-line client (src/cli/finedb-cli.c) that take no key.
use fine_db.Prelude.{
  Bool, true, false, ◌||◌, none, some, List, [], ◌∷◌, ◌++◌, Bytes, bytes_eq, if◌then◌else◌,
}
use fine_db.Client.{
  Client, FinedbResult, finedb_ok, finedb_sync, finedb_async, finedb_setdb, finedb_start,
  finedb_stop, finedb_ping,
}
use fine_db.Cli.{Cli, check_connection}
use fine_db.Cli.Words.{codes, same_word}

-- What is printed, except by check_connection when it has reconnected.
pub data Message : Type 0 where
  lost_connection server_failed ping_ok sync_set async_set default_used : Message
  transaction_open no_transaction transaction_started transaction_stopped bad_command usage :
      Message
  not_usable : FinedbResult → Message
  database_used : Bytes → Message
  autocheck_is : Bool → Message

-- What is printed, oldest first, and the client afterwards.
abbrev pub Told : Type 0
Told = List Message × Cli

-- The client library's structure is the only thing that a request changes.
abbrev pub asked : Cli → Client → Cli
asked cli c = record cli { finedb = c }

unfoldable pub command_sync : Cli → Told
command_sync cli = (sync_set ∷ [], asked cli (finedb_sync cli.finedb))

unfoldable pub command_async : Cli → Told
command_async cli = (async_set ∷ [], asked cli (finedb_async cli.finedb))

on_default : FinedbResult → Cli → Told
on_default finedb_ok cli = (default_used ∷ [], record cli { dbname = none })
on_default e cli = (not_usable e ∷ [], cli)

on_named : Bytes → FinedbResult → Cli → Told
on_named name finedb_ok cli = (database_used name ∷ [], record cli { dbname = some name })
on_named name e cli = (not_usable e ∷ [], cli)

-- `!strlen(pt) || !strcasecmp(pt, "default")`.
unfoldable pub is_default : Bytes → Bool
unfolding same_word
is_default [] = true
is_default (c ∷ cs) = same_word (c ∷ cs) (codes "default")

use_now : Bytes → Bool × Cli → Told
unfolding on_default on_named is_default
use_now name (false, cli) = (lost_connection ∷ [], cli)
use_now name (true, cli) =
    let r = finedb_setdb none cli.finedb in
    let n = finedb_setdb (some name) cli.finedb in
    if is_default name then on_default r.0 (asked cli r.1) else on_named name n.0 (asked cli n.1)

unfoldable pub command_use : Bytes → Cli → Told
unfolding use_now
command_use name cli = use_now name (check_connection cli)

-- The first argument is what was printed before.
on_start : List Message → FinedbResult → Cli → Told
on_start printed finedb_ok cli =
    (printed ++ transaction_started ∷ [], record cli { in_transaction = true })
on_start printed e cli = (printed ++ server_failed ∷ [], cli)

start_now : Bool × Cli → Told
unfolding on_start
start_now (false, cli) = (lost_connection ∷ [], cli)
start_now (true, cli) =
    let printed = if cli.in_transaction then transaction_open ∷ [] else [] in
    let r = finedb_start cli.finedb in on_start printed r.0 (asked cli r.1)

unfoldable pub command_start : Cli → Told
unfolding start_now
command_start cli = start_now (check_connection cli)

on_stop : FinedbResult → Cli → Told
on_stop finedb_ok cli = (transaction_stopped ∷ [], record cli { in_transaction = false })
on_stop e cli = (server_failed ∷ [], cli)

stop_now : Bool × Cli → Told
unfolding on_stop
stop_now (false, cli) = (lost_connection ∷ [], cli)
stop_now (true, cli) =
    let r = finedb_stop cli.finedb in
    if cli.in_transaction then on_stop r.0 (asked cli r.1) else (no_transaction ∷ [], cli)

unfoldable pub command_stop : Cli → Told
unfolding stop_now
command_stop cli = stop_now (check_connection cli)

on_pong : FinedbResult → Message
on_pong finedb_ok = ping_ok
on_pong e = server_failed

unfoldable pub command_ping : Cli → Told
unfolding on_pong
command_ping cli = let r = finedb_ping cli.finedb in (on_pong r.0 ∷ [], asked cli r.1)

-- on, yes and true in any case, or 1.
is_on : Bytes → Bool
unfolding same_word bytes_eq
is_on pt =
    same_word pt (codes "on")
    || same_word pt (codes "yes")
    || same_word pt (codes "true")
    || bytes_eq pt (codes "1")

set_autocheck : Bytes → Cli → Cli
unfolding is_on
set_autocheck [] cli = cli
set_autocheck (c ∷ cs) cli = record cli { autocheck = is_on (c ∷ cs) }

unfoldable pub command_autocheck : Bytes → Cli → Told
unfolding set_autocheck
command_autocheck pt cli =
    let cli' = set_autocheck pt cli in (autocheck_is cli'.autocheck ∷ [], cli')

-- Both have an empty body.
unfoldable pub command_inc : Bytes → Cli → Told
command_inc pt cli = ([], cli)

unfoldable pub command_dec : Bytes → Cli → Told
command_dec pt cli = ([], cli)
