-- ===== src/Connection/Tests.antt =====
-- Runs of a whole connection.
use fine_db.Lmdb.{IsLmdb}
use fine_db.Lmdb.Sample.{sample-IsLmdb, empty_disk}
use fine_db.Prelude.{◌≡◌, refl, true, false, none, some, List, [], ◌∷◌, arith}
use fine_db.Socket.{Recv, received}
use fine_db.Socket.Read.{volume}
use fine_db.Server.{State}
use fine_db.Server.Sample.{libraries, begun, list-IsDynabin}
use fine_db.Connection.{serve_request, request_loop, serve_connection}
use fine_db.Connection.Isolation.{holds_live, serve_request_isolated}
use fine_db.Connection.Outside.{serve_request-holds_live, serve_connection_rolls_back}
use fine_db.Connection.Rounds.{serve_connection_ends}

-- A PING, then a request that the server does not know.
abbrev chunks : List Recv
chunks = received (0 ∷ 13 ∷ []) ∷ []

serve_connection_ends_example :
    (serve_connection libraries 3 5 (begun chunks) ≡ serve_connection libraries 9 5 (begun chunks))
    × ((serve_connection libraries 3 5 (begun chunks)).thread
        ≡ record { fd = none; dbname = none; transaction = none })
unfolding volume
serve_connection_ends_example =
    serve_connection_ends libraries list-IsDynabin 3 9 5 (begun chunks) (omega arith) (omega arith)

-- A thread in a transaction, to which a synchronous PUT comes.
abbrev inside : State libraries
inside = record (begun (received (19 ∷ 0 ∷ 1 ∷ 107 ∷ 0 ∷ 0 ∷ 0 ∷ 1 ∷ 118 ∷ []) ∷ [])) {
  thread = record { fd = some 4; dbname = none; transaction = some tt };
  env = record empty_disk { active = some (record { readonly = true; store = empty_disk.store }) };
}

abbrev laws : IsLmdb libraries.lmdb
laws = sample-IsLmdb false

serve_request_isolated_example :
    let t = (serve_request libraries inside).1 in
    (laws.committed t.env ≡ empty_disk.store)
    × (t.queue ≡ [])
    × (holds_live libraries laws t.transaction t.env ≡ true)
serve_request_isolated_example = serve_request_isolated libraries laws tt inside refl refl

serve_request-holds_live_example :
    let t = (serve_request libraries inside).1 in
    holds_live libraries laws t.transaction t.env ≡ true
serve_request-holds_live_example = serve_request-holds_live libraries laws inside refl

-- A START, and the end of the stream.
abbrev started : State libraries
started = begun (received (5 ∷ []) ∷ [])

serve_connection_rolls_back_example :
    let s : State libraries = record started {
      thread = record started.thread { fd = some 6 };
      buff = libraries.ydynabin_new;
    } in
    laws.committed (serve_connection libraries 3 6 started).env
    ≡ laws.committed (request_loop libraries 3 s).env
serve_connection_rolls_back_example = serve_connection_rolls_back libraries laws 3 6 started refl
