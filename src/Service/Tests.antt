-- ===== src/Service/Tests.antt =====
-- A thread's connections, and the writer thread's work after them.
use fine_db.Prelude.{
  inl, inr, ◌≢◌, Bytes, ◌≡◌, ℕ, Option, some, none, refl, false, List, [], ◌∷◌, arith,
}
use fine_db.Lmdb.Sample.{sample, sample-IsLmdb, empty_disk}
use fine_db.Database.Atomic.{CommitsSucceed}
use fine_db.Wire.{htons, htonl}
use fine_db.Protocol.{command_code, request_add_sync, request_add_compressed}
use fine_db.Socket.{Socket, Recv, received}
use fine_db.Socket.Read.{stream}
use fine_db.Server.Sample.{
  libraries, begun, begun-IsHealthy, list-IsDynabin, list-HasMemory, marking-IsSnappy,
}
use fine_db.Connection.{connection_thread_execution, idle}
use fine_db.Server.{State}
use fine_db.Service.{
  Request, ping_server, put_data, get_data, del_async, ServesAll, Talk, server_reply,
}
use fine_db.Writer.{writer_loop}
use fine_db.Writer.Replay.{replay}
use fine_db.Writer.Queues.{received_all}
use fine_db.Service.Settles.{connections_settle}
use fine_db.Service.Cut.{cut_round}
use fine_db.Server.Reading.{taken}
use fine_db.Server.Sending.{replied}
use fine_db.Service.Interleaving.{performed, serve_request-Reachable}
use fine_db.Connection.{serve_request}
use fine_db.Writer.Interleaved.{Reachable, start}
use fine_db.Writer.Interleaved

sample_commits : CommitsSucceed (sample false) (sample-IsLmdb false)
sample_commits t e h = ground arith

abbrev requests : List Request
requests = ping_server ∷ put_data (107 ∷ []) (0 ∷ 118 ∷ []) ∷ get_data (107 ∷ []) ∷ []

-- In two chunks, the first of which ends in the middle of the PUT.
abbrev chunks : List Recv
chunks =
    received (0 ∷ 83 ∷ 0 ∷ [])
    ∷ received (1 ∷ 107 ∷ 0 ∷ 0 ∷ 0 ∷ 2 ∷ 0 ∷ 118 ∷ 65 ∷ 0 ∷ 1 ∷ 107 ∷ [])
    ∷ []

-- A connection with these requests, a failure of nn_recv, and a connection with a PING, an
-- asynchronous DEL and the first two bytes of a PUT.
abbrev incoming : List (Option (ℕ × Socket))
incoming =
    some (4, record { recvs = chunks; sends = []; sent = [] })
    ∷ none
    ∷ some (
      5,
      record { recvs = received (0 ∷ 2 ∷ 0 ∷ 1 ∷ 107 ∷ 83 ∷ 0 ∷ []) ∷ []; sends = []; sent = [] },
    )
    ∷ []

abbrev more_requests : List Request
more_requests = ping_server ∷ del_async (107 ∷ []) ∷ []

abbrev talks : List Talk
talks =
    record { whole = requests; part = [] }
    ∷ record { whole = more_requests; part = 83 ∷ 0 ∷ [] }
    ∷ []

-- What is missing of the PUT.
abbrev put_rest : Bytes
put_rest = 1 ∷ 107 ∷ 0 ∷ 0 ∷ 0 ∷ 2 ∷ 0 ∷ 118 ∷ []

put_rest-some : put_rest ≢ []
put_rest-some none_left = absurd (ground (arith, none_left))

abbrev waiting : State libraries
waiting = record (begun []) { thread = idle libraries }

connections_settle_example :
    let r = connection_thread_execution libraries 9 incoming waiting in
    let w = writer_loop libraries.lmdb (received_all r.1.queue) r.1.env in
    let laws = sample-IsLmdb false in
    ServesAll (laws.committed empty_disk, []) talks r.0 (laws.committed r.1.env, r.1.queue)
    × (laws.committed w.1 ≡ replay (received_all r.1.queue) w.0 (laws.committed r.1.env))
unfolding htons htonl stream command_code request_add_sync request_add_compressed
connections_settle_example =
    connections_settle libraries (sample-IsLmdb false) list-IsDynabin list-HasMemory
      marking-IsSnappy sample_commits 9 incoming talks waiting
      (
        omega arith,
        inl refl,
        refl,
        refl,
        refl,
        omega arith,
        (
          omega arith,
          inr (
            put_data (107 ∷ []) (0 ∷ 118 ∷ []),
            put_rest,
            (omega arith, omega arith),
            put_rest-some,
            refl,
          ),
          refl,
          refl,
          refl,
          omega arith,
          tt,
        ),
      )
      refl refl refl refl

abbrev chunk : Bytes
chunk = 83 ∷ 0 ∷ 1 ∷ 107 ∷ 0 ∷ 0 ∷ 0 ∷ 2 ∷ 0 ∷ 118 ∷ 65 ∷ []

-- A thread that finds a PUT in what it reads next.
abbrev reading : State libraries
reading = begun (received chunk ∷ [])

serve_request-Reachable_example :
    let s' = (serve_request libraries reading).1 in
    let y' =
      performed libraries 7 none
        (put_data (107 ∷ []) (0 ∷ 118 ∷ []))
        (Interleaved.begun libraries.lmdb empty_disk) in
    Reachable libraries.lmdb empty_disk y' × (s'.env ≡ y'.env) × (s'.queue ≡ y'.pipes 7)
unfolding htons htonl stream command_code request_add_sync request_add_compressed
serve_request-Reachable_example =
    serve_request-Reachable libraries (sample-IsLmdb false) list-IsDynabin list-HasMemory
      marking-IsSnappy empty_disk 7 (put_data (107 ∷ []) (0 ∷ 118 ∷ [])) (65 ∷ [])
      (Interleaved.begun libraries.lmdb empty_disk) reading start (omega arith, omega arith)
      (record {
        healthy = begun-IsHealthy (received chunk ∷ []);
        outside = refl;
        default = refl;
        posts = refl;
      })
      refl

abbrev two_bytes : Bytes
two_bytes = 83 ∷ 0 ∷ []

-- A thread that finds two bytes of a PUT.
abbrev breaking : State libraries
breaking = begun (received two_bytes ∷ [])

breaking_some : two_bytes ≢ []
breaking_some none_left = absurd (ground (arith, none_left))

cut_round_example :
    (b : libraries.Buffer) × (rs : List Recv) × (serve_request libraries breaking
      ≡ (false, replied libraries (taken libraries breaking b rs) server_reply))
unfolding htons htonl stream command_code request_add_sync request_add_compressed
cut_round_example =
    cut_round libraries list-IsDynabin list-HasMemory (put_data (107 ∷ []) (0 ∷ 118 ∷ [])) put_rest
      breaking (omega arith, omega arith) (begun-IsHealthy (received two_bytes ∷ [])) put_rest-some
      breaking_some refl
