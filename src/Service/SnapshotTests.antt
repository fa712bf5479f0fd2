-- ===== src/Service/SnapshotTests.antt =====
-- A client reads in a transaction while another thread overwrites what it reads.
use fine_db.Prelude.{◌≡◌, refl, false, none, some, [], ◌∷◌, ◌++◌, Bytes, arith, bytes_eq}
use fine_db.Lmdb.{Store, insert, name_eq}
use fine_db.Lmdb.Several.{several, several-IsLmdb, several-IsSnapshot}
use fine_db.Dynabin.{list_dynabin}
use fine_db.Database.{
  database_put, database_get, database_transaction_start, transaction_init, end_of_process,
}
use fine_db.Database.Atomic.{CommitsSucceed}
use fine_db.Wire.{htons, htonl, ntohs}
use fine_db.Exec.{◌>>=◌, label}
use fine_db.Socket.{sendmsg, received}
use fine_db.Socket.Read.{read_loop, stream}
use fine_db.Server.{
  connection_send_ok, connection_send_response, read, connection_read_data, on_env, ymalloc,
  Libraries, State, write_put,
}
use fine_db.Command.Reply.{read_key}
use fine_db.Command.Get.{command_get, get_reply, to_send}
use fine_db.Command.StartStop.{command_start, started}
use fine_db.Connection.{on_request, execute, commands, is_some, serve_request}
use fine_db.Protocol.{
  command_code, request_command, request_has_sync, request_has_compressed, request_has_serialized,
  request_add_compressed,
}
use fine_db.Server.Sample.{list-IsDynabin, list-HasMemory, marking, marking-IsSnappy}
use fine_db.Writer.{writer_step}
use fine_db.Writer.Interleaved.{System, change_now}
use fine_db.Writer.Snapshot.{no_step, one_more}
use fine_db.Service.{ok_reply}
use fine_db.Service.Snapshot.{replies, Session, others_worked, get_served, reads_after_start}
use fine_db.Writer.Interleaved

abbrev shared : Libraries
shared = record { lmdb = several; dynabin = list_dynabin; snappy = marking }

several_commits : CommitsSucceed several several-IsLmdb
several_commits t e live = ground arith

abbrev key : Bytes
key = 107 ∷ []

abbrev start_store : Store
start_store = insert none key (0 ∷ 118 ∷ []) (λ n k. none)

-- START, and two GETs of the key.
abbrev asked : Bytes
asked = 5 ∷ 65 ∷ 0 ∷ 1 ∷ 107 ∷ 65 ∷ 0 ∷ 1 ∷ 107 ∷ []

abbrev reader : State shared
reader = record {
  thread = record { fd = some 4; dbname = none; transaction = none };
  buff = [];
  socket = record { recvs = received asked ∷ []; sends = []; sent = [] };
  env = record { store = start_store; slots = [] };
  queue = [];
  allocs = [];
  pushes = [];
  unset = none;
}

-- After START, after the other thread's PUT, and after each GET.
abbrev transaction_open : State shared
transaction_open = (serve_request shared reader).1

abbrev before_put : System several
before_put = Interleaved.begun several transaction_open.env

abbrev after_put : State shared
after_put = record transaction_open {
  env = (writer_step several (write_put none key (0 ∷ 119 ∷ []) false) before_put.env).1;
}

abbrev one_read : State shared
one_read = (serve_request shared after_put).1

abbrev two_read : State shared
two_read = (serve_request shared one_read).1

two_gets : Session shared transaction_open (key ∷ key ∷ []) two_read
unfolding htons ntohs stream command_code request_add_compressed serve_request on_request execute
    commands is_some request_command request_has_sync request_has_compressed request_has_serialized
    command_start started database_transaction_start connection_send_ok connection_send_response
    sendmsg read connection_read_data read_loop ◌>>=◌ label read_key command_get get_reply to_send
    on_env ymalloc database_put database_get transaction_init end_of_process writer_step insert
    name_eq bytes_eq htonl
two_gets =
    get_served {u = one_read} {w = two_read} key []
      (get_served {u = after_put} {w = one_read} key (65 ∷ 0 ∷ 1 ∷ 107 ∷ [])
        (others_worked before_put _ refl
          (one_more no_step (change_now before_put (write_put none key (0 ∷ 119 ∷ []) false) tt)))
        (omega arith) refl refl)
      (omega arith) refl refl

reads_after_start_example : two_read.sent ≡ ([] ++ ok_reply) ++ replies start_store (key ∷ key ∷ [])
unfolding command_code stream
reads_after_start_example =
    reads_after_start shared several-IsLmdb several-IsSnapshot list-IsDynabin list-HasMemory
      marking-IsSnappy several_commits 0 (65 ∷ 0 ∷ 1 ∷ 107 ∷ 65 ∷ 0 ∷ 1 ∷ 107 ∷ []) (key ∷ key ∷ [])
      reader two_read
      (record { connected = λ h. absurd (ground arith); memory = refl; line = refl }) refl refl refl
      refl two_gets
