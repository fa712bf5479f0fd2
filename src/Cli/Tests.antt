-- ===== src/Cli/Tests.antt =====
-- Runs of the command-line client.
use fine_db.Prelude.{◌≡◌, refl, true, false, none, some, [], ◌∷◌, ◌++◌, Bytes, arith}
use fine_db.Dynabin.{list_dynabin}
use fine_db.Server.Sample.{marking}
use fine_db.Client.{put_request}
use fine_db.Client.Sends.{IsReady}
use fine_db.Wire.{c_string}
use fine_db.Protocol.{command_code, response_status, response_code}
use fine_db.Socket.{Socket, received, sendmsg}
use fine_db.Socket.Read.{stream}
use fine_db.Server.Sample.{libraries, begun, begun-IsHealthy, list-IsDynabin, list-HasMemory}
use fine_db.Connection.{serve_request}
use fine_db.Client.{
  finedb_ping, send_simple_request, exchange, send, read_code, next_byte, result_of,
}
use fine_db.Client.Naming.{setdb_request}
use fine_db.Cli.Words.{codes, to_lower, find_word, cli_completion, autocheck_word}
use fine_db.Cli.Session.{
  sync_set, command_sync, no_transaction, command_stop, command_use, is_default,
}
use fine_db.Client.Lifecycle.{finedb_create, finedb_disconnect, finedb_delete}
use fine_db.Cli.Turn.{run_line, run_lines, run_client, exits, shows, messages, leaves}
use fine_db.Cli.Reconnect.{IsBack, put_after_reconnect, stop_after_reconnect}
use fine_db.Cli.Prompt.{IsShort, command_use-selects}
use fine_db.Cli.Typed.{run_line-put}
use fine_db.Cli.{Cli, finedb_connect, command_send_data}
use fine_db.Cli.Line.{
  quote, parsed, bad, no_data_quote, read_key, read_data, read_key_data, cut_at_quote, ltrim,
  is_space,
}
use fine_db.Cli.Quoting.{quoted, read_key_data-quoted}

-- `"k" "v"w"`
abbrev line : Bytes
line = quote ∷ (107 ∷ quote ∷ 32 ∷ quoted (118 ∷ quote ∷ 119 ∷ []))

read_key_data-quoted_example : read_key_data line ≡ parsed (107 ∷ [], 118 ∷ quote ∷ 119 ∷ [])
read_key_data-quoted_example =
    read_key_data-quoted 107 [] (118 ∷ quote ∷ 119 ∷ []) (ground arith, tt)

-- Without the space, the value's first quote is skipped: `"k""v"`.
close_together : read_key_data (quote ∷ 107 ∷ quote ∷ quoted (118 ∷ [])) ≡ bad no_data_quote
unfolding read_key_data read_key read_data cut_at_quote ltrim is_space
close_together = refl

abbrev cli : Cli
cli = record {
  finedb = record {
    sock = some 3;
    sync = true;
    socket = record { recvs = []; sends = []; sent = [] };
    allocs = [];
  };
  dbname = none;
  autocheck = false;
  in_transaction = false;
  reachable = [];
}

cli-IsReady : IsReady cli.finedb
cli-IsReady = record { connected = λ h. absurd (ground arith); memory = refl; line = refl }

-- `Put "k" "v"w"`
run_line-put_example :
    (run_line list_dynabin marking [] (80 ∷ 117 ∷ 116 ∷ 32 ∷ line) cli).1.finedb.sent
    ≡ [] ++ put_request true (107 ∷ []) (0 ∷ 118 ∷ quote ∷ 119 ∷ [])
unfolding to_lower
run_line-put_example =
    run_line-put list_dynabin marking [] 80 117 116 107 [] (118 ∷ quote ∷ 119 ∷ [])
      (0 ∷ 118 ∷ quote ∷ 119 ∷ []) cli refl (ground arith, tt) refl cli-IsReady refl

-- A client in the database `d` and in a transaction, whose server has gone and comes back.
abbrev peer : Socket
peer = record { recvs = received (1 ∷ []) ∷ []; sends = []; sent = [] }

abbrev left_alone : Cli
left_alone = record cli {
  dbname = some (100 ∷ []);
  autocheck = true;
  in_transaction = true;
  reachable = some (5, peer) ∷ [];
}

left_alone-IsBack : IsBack left_alone 5 peer []
unfolding finedb_ping send_simple_request exchange send read_code next_byte result_of sendmsg
left_alone-IsBack = record { checked = refl; gone = λ h. cc; host = refl }

put_after_reconnect_example :
    let r = command_send_data list_dynabin marking false false line left_alone in
    (r.1.finedb.sent ≡ [] ++ put_request true (107 ∷ []) (0 ∷ 118 ∷ quote ∷ 119 ∷ []))
    × (r.1.dbname ≡ some (100 ∷ []))
put_after_reconnect_example =
    put_after_reconnect list_dynabin marking 107 [] (118 ∷ quote ∷ 119 ∷ [])
      (0 ∷ 118 ∷ quote ∷ 119 ∷ []) left_alone 5 peer [] (ground arith, tt) left_alone-IsBack refl
      refl refl

stop_after_reconnect_example :
    let r = command_stop left_alone in
    (r.0 ≡ no_transaction ∷ []) × (r.1.finedb.sent ≡ []) × (r.1.in_transaction ≡ false)
stop_after_reconnect_example = stop_after_reconnect left_alone 5 peer [] left_alone-IsBack

-- `use d`, answered by RESP_OK.
abbrev answered : Cli
answered = record cli { finedb = record cli.finedb { socket = peer } }

answered-IsReady : IsReady answered.finedb
answered-IsReady = record { connected = λ h. absurd (ground arith); memory = refl; line = refl }

d-IsShort : IsShort (100 ∷ [])
unfolding c_string
d-IsShort = record { text = refl; short = omega arith }

command_use-selects_example :
    let r = (command_use (100 ∷ []) answered).1 in
    (r.finedb.sent ≡ [] ++ setdb_request (100 ∷ []))
    × (r.dbname ≡ some (100 ∷ []))
    × ((serve_request libraries (begun (received (4 ∷ 1 ∷ 100 ∷ []) ∷ []))).1.dbname ≡ r.dbname)
unfolding stream command_code c_string is_default result_of next_byte response_status response_code
command_use-selects_example =
    command_use-selects libraries list-IsDynabin list-HasMemory 100 [] [] answered
      (begun (received (4 ∷ 1 ∷ 100 ∷ []) ∷ [])) d-IsShort refl refl answered-IsReady refl
      (begun-IsHealthy _) refl

-- A prefix, in whatever case, of a name that the main loop does not know.
completed : cli_completion (codes "CO") ≡ codes "commit" ∷ []
unfolding cli_completion
completed = refl

unknown : find_word (codes "commit") ≡ none
unfolding find_word
unknown = refl

shouted : find_word (codes "AutoCheck") ≡ some autocheck_word
unfolding find_word
shouted = refl

-- The library's client is created, the server is reached, and the lines `sync` and `quit` are read; a
-- line behind `quit` is not.
whole_run :
    run_client list_dynabin marking
      (finedb_create true true [])
      (some (5, peer) ∷ [])
      (([], codes "sync") ∷ ([], codes "quit") ∷ ([], codes "async") ∷ [])
    ≡ shows (messages (sync_set ∷ []) ∷ leaves ∷ [])
unfolding run_client finedb_create finedb_connect run_lines run_line find_word command_sync
whole_run = refl

unreachable : run_client list_dynabin marking (finedb_create true true []) [] [] ≡ exits 2
unfolding run_client finedb_create finedb_connect
unreachable = refl

-- A deletion after a disconnection closes the descriptor again.
closed_twice : finedb_delete cli.finedb (finedb_disconnect cli.finedb []) ≡ 3 ∷ 3 ∷ []
unfolding finedb_delete finedb_disconnect
closed_twice = refl
