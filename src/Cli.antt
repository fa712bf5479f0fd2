-- ===== src/Cli.antt =====
-- The command-line client, src/cli/finedb-cli.c: the check of the connection, and the commands that
-- take a key. Cli.Words, Cli.Session and Cli.Turn have the other commands and the main loop. What is printed is a value of type Printed.
pub mod Line
pub mod Words
pub mod Session
pub mod Turn
pub mod Reconnect
pub mod Prompt
pub mod Typed
pub mod Quoting
mod Tests
use fine_db.Prelude.{ℕ, Bool, true, false, Option, none, some, List, [], ◌∷◌, Bytes, if◌then◌else◌}
use fine_db.Dynabin.{Dynabin}
use fine_db.Snappy.{Snappy}
use fine_db.Socket.{Socket}
use fine_db.Client.{
  Client, FinedbResult, finedb_ok, err_network, finedb_ping, finedb_del, finedb_put, finedb_add,
  finedb_update,
}
use fine_db.Client.Get.{finedb_get}
use fine_db.Cli.Line.{Complaint, Parsed, parsed, bad, read_key, read_key_data}

-- `cli_t`, and what the coming attempts to connect will reach: a socket with its number, or `none`.
-- Behind the listed ones, they fail.
pub record Cli : Type 0 where
  pub finedb : Client
  -- `none` is NULL, for the default database.
  pub dbname : Option Bytes
  pub autocheck : Bool
  pub in_transaction : Bool
  pub reachable : List (Option (ℕ × Socket))

connect_to : Option (ℕ × Socket) → Client → FinedbResult × Client
connect_to none c = (err_network, record c { sock = none })
connect_to (some (fd, peer)) c = (finedb_ok, record c { sock = some fd; socket = peer })

next_host : List (Option (ℕ × Socket)) → Option (ℕ × Socket) × List (Option (ℕ × Socket))
next_host [] = (none, [])
next_host (h ∷ hs) = (h, hs)

-- finedb_connect of src/lib/libfinedb.c.
unfoldable pub finedb_connect : Cli → FinedbResult × Cli
unfolding connect_to next_host
finedb_connect cli =
    let h = next_host cli.reachable in
    let r = connect_to h.0 cli.finedb in (r.0, record cli { finedb = r.1; reachable = h.1 })

on_connect : FinedbResult × Cli → Bool × Cli
on_connect (finedb_ok, cli) = (true, record cli { in_transaction = false })
on_connect (e, cli) = (false, cli)

on_ping : FinedbResult → Cli → Bool × Cli
unfolding on_connect
on_ping finedb_ok cli = (true, cli)
on_ping e cli = on_connect (finedb_connect cli)

unfoldable pub check_connection : Cli → Bool × Cli
unfolding on_ping
check_connection cli =
    let r = finedb_ping cli.finedb in
    let checked = on_ping r.0 (record cli { finedb = r.1 }) in
    if cli.autocheck then checked else (true, cli)

-- What a command prints: a complaint about the line, that the connection is lost, or the result of
-- the request with the value, if there is one.
pub data Printed : Type 0 where
  complaint : Complaint → Printed
  lost : Printed
  result : FinedbResult → Option Bytes → Printed

module _ (dyn : Dynabin) (zip : Snappy) where
  get_now : Bytes → Bool × Cli → Printed × Cli
  get_now key (false, cli) = (lost, cli)
  get_now key (true, cli) =
      let r = finedb_get dyn zip key cli.finedb in (result r.0.0 r.0.1, record cli { finedb = r.1 })

  get_parsed : Parsed (Bytes × Bytes) → Cli → Printed × Cli
  unfolding get_now
  get_parsed (bad why) cli = (complaint why, cli)
  get_parsed (parsed (key, rest)) cli = get_now key (check_connection cli)

  unfoldable pub command_get : Bytes → Cli → Printed × Cli
  unfolding get_parsed
  command_get line cli = get_parsed (read_key line) cli

  put_with : Bool → Bool → Bytes → Bytes → Client → FinedbResult × Client
  put_with create_only update_only key value c =
      if create_only
      then finedb_add zip key value c
      else if update_only
      then finedb_update zip key value c
      else finedb_put zip key value c

  put_now : Bool → Bool → Bytes → Bytes → Bool × Cli → Printed × Cli
  unfolding put_with
  put_now create_only update_only key value (false, cli) = (lost, cli)
  put_now create_only update_only key value (true, cli) =
      let r = put_with create_only update_only key value cli.finedb in
      (result r.0 none, record cli { finedb = r.1 })

  put_parsed : Bool → Bool → Parsed (Bytes × Bytes) → Cli → Printed × Cli
  unfolding put_now
  put_parsed create_only update_only (bad why) cli = (complaint why, cli)
  put_parsed create_only update_only (parsed (key, value)) cli =
      put_now create_only update_only key value (check_connection cli)

  unfoldable pub command_send_data : Bool → Bool → Bytes → Cli → Printed × Cli
  unfolding put_parsed
  command_send_data create_only update_only line cli =
      put_parsed create_only update_only (read_key_data line) cli

del_now : Bytes → Bool × Cli → Printed × Cli
del_now key (false, cli) = (lost, cli)
del_now key (true, cli) =
    let r = finedb_del key cli.finedb in (result r.0 none, record cli { finedb = r.1 })

del_parsed : Parsed (Bytes × Bytes) → Cli → Printed × Cli
unfolding del_now
del_parsed (bad why) cli = (complaint why, cli)
del_parsed (parsed (key, rest)) cli = del_now key (check_connection cli)

unfoldable pub command_del : Bytes → Cli → Printed × Cli
unfolding del_parsed
command_del line cli = del_parsed (read_key line) cli
