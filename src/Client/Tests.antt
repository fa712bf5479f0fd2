-- ===== src/Client/Tests.antt =====
-- Runs of the client library, and of it with the server.
use fine_db.Prelude.{
  ℕ, zero, suc, ◌≡◌, refl, true, false, none, some, List, [], ◌∷◌, ◌++◌, Bytes, arith,
}
use fine_db.Exec.{◌>>=◌, label}
use fine_db.Wire.{ntohs, htons, htonl}
use fine_db.Lmdb.{insert}
use fine_db.Lmdb.Sample.{Disk, empty_disk}
use fine_db.Dynabin.{list_dynabin}
use fine_db.Protocol.{
  request_command, request_has_compressed, request_has_serialized, resp_ok, command_code,
  request_add_sync, request_add_compressed, code_byte,
}
use fine_db.Database.{database_put, database_get}
use fine_db.Socket.{Recv, received}
use fine_db.Socket.{sendmsg}
use fine_db.Socket.Read.{read_loop, stream}
use fine_db.Server.{read, ymalloc, on_env, connection_send_response, State}
use fine_db.Server.Reading.{taken}
use fine_db.Server.Sending.{IsHealthy, replied, stored, response}
use fine_db.Server.Sample.{
  libraries, begun, begun-IsHealthy, list-IsDynabin, list-HasMemory, marking, marking-IsSnappy,
}
use fine_db.Command.Get.{command_get, to_send}
use fine_db.Command.Reply.{read_key, answer}
use fine_db.Connection.{serve_request}
use fine_db.Client.{Client, finedb_ok}
use fine_db.Client.Get.{finedb_get}
use fine_db.Client.Sends.{IsReady}
use fine_db.Client.Serving.{serve_request-put, serve_request-get}
use fine_db.Wire.{c_string}
use fine_db.Command.Selects.{named}
use fine_db.Client.Naming.{serve_request-setdb}
use fine_db.Client.RoundTrip.{get_round_trip}

abbrev key : Bytes
key = 107 ∷ []

abbrev value : Bytes
value = 118 ∷ 119 ∷ []

abbrev connected : List Recv → Client
connected chunks = record {
  sock = some 3;
  sync = true;
  socket = record { recvs = chunks; sends = []; sent = [] };
  allocs = [];
}

connected-IsReady : (chunks : List Recv) → IsReady (connected chunks)
connected-IsReady chunks = record {
  connected = λ h. absurd (ground arith);
  memory = refl;
  line = refl;
}

-- The response to a GET in two chunks.
abbrev answered : List Recv
answered = received (65 ∷ 0 ∷ 0 ∷ []) ∷ received (0 ∷ 3 ∷ 0 ∷ 118 ∷ 119 ∷ []) ∷ []

abbrev put_asked : State libraries
put_asked = begun (received (83 ∷ 0 ∷ 1 ∷ []) ∷ received (107 ∷ 0 ∷ 0 ∷ 0 ∷ 1 ∷ 118 ∷ 9 ∷ []) ∷ [])

serve_request-put_example :
    let r = database_put libraries.lmdb none false none key (118 ∷ []) empty_disk in
    (b : Bytes) × (rs : List Recv) × (serve_request libraries put_asked ≡ (
      true,
      replied libraries
          (stored libraries (taken libraries put_asked b rs) r.1)
          (response libraries (answer r.0) false false none),
    ))
    × (b ++ stream rs ≡ 9 ∷ [])
unfolding htons htonl stream command_code request_add_sync request_add_compressed
serve_request-put_example =
    serve_request-put libraries list-IsDynabin list-HasMemory key (118 ∷ []) (9 ∷ []) put_asked
      (begun-IsHealthy _) (omega arith) (omega arith) refl

abbrev del_asked : State libraries
del_asked = begun (received (18 ∷ 0 ∷ 1 ∷ []) ∷ received (107 ∷ 9 ∷ []) ∷ [])

abbrev full_disk : Disk
full_disk = (database_put libraries.lmdb none false none key (0 ∷ value) empty_disk).1

abbrev get_asked : State libraries
get_asked =
    stored libraries (begun (received (65 ∷ 0 ∷ 1 ∷ []) ∷ received (107 ∷ 9 ∷ []) ∷ [])) full_disk

get_asked-IsHealthy : IsHealthy libraries get_asked
get_asked-IsHealthy = record { connected = λ h. absurd (ground arith); memory = refl; line = refl }

serve_request-get_example :
    let r = database_get libraries.lmdb none none none key full_disk in
    (b : Bytes) × (rs : List Recv) × (serve_request libraries get_asked ≡ (
      true,
      replied libraries
          (stored libraries (taken libraries get_asked b rs) r.1)
          (response libraries resp_ok false true (some (0 ∷ value))),
    ))
    × (b ++ stream rs ≡ 9 ∷ [])
unfolding htons stream command_code request_add_compressed database_put database_get insert
serve_request-get_example =
    serve_request-get libraries list-IsDynabin list-HasMemory marking-IsSnappy key (0 ∷ value)
      (9 ∷ []) get_asked get_asked-IsHealthy (omega arith) refl refl

get_round_trip_example :
    (finedb_get list_dynabin marking key (connected answered)).0 ≡ (finedb_ok, some value)
unfolding htons stream command_code request_add_compressed database_put database_get insert
    serve_request htonl read ◌>>=◌ read_loop request_command command_get label read_key ntohs
    ymalloc on_env to_send request_has_compressed connection_send_response sendmsg code_byte
    request_has_serialized
get_round_trip_example =
    get_round_trip libraries list-IsDynabin list-HasMemory marking-IsSnappy key value (0 ∷ value)
      (9 ∷ []) (65 ∷ 0 ∷ 0 ∷ 0 ∷ 3 ∷ 0 ∷ value) get_asked (connected answered) get_asked-IsHealthy
      (connected-IsReady _) (omega arith) (omega arith) refl refl refl refl refl

abbrev repeat : ℕ → Bytes
repeat zero = []
repeat (suc n) = 97 ∷ repeat n

abbrev long_name : State libraries
long_name = begun (received (4 ∷ 1 ∷ repeat 257) ∷ [])

-- Of a name of 257 bytes one is taken.
serve_request-setdb_example :
    (b : Bytes) × (rs : List Recv) × (serve_request libraries long_name ≡ (
      true,
      replied libraries
          (named libraries (taken libraries long_name b rs) (some (97 ∷ [])))
          (response libraries resp_ok false false none),
    ))
    × (b ++ stream rs ≡ repeat 256 ++ [])
unfolding stream command_code c_string
serve_request-setdb_example =
    serve_request-setdb libraries list-IsDynabin list-HasMemory (repeat 257) [] long_name
      (begun-IsHealthy _) refl
