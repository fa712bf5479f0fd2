-- ===== src/Service/RefusedTests.antt =====
-- A START and two PUTs behind it, one of which the client has compressed.
use fine_db.Prelude.{ℕ, suc, ◌+◌, ◌≡◌, refl, true, false, some, List, [], ◌∷◌, ◌++◌, length, arith}
use fine_db.Lmdb.Sample.{sample-IsLmdb, empty_disk}
use fine_db.Wire.{htons, htonl}
use fine_db.Protocol.{command_code, request_command, request_has_compressed}
use fine_db.Socket.{Recv, received}
use fine_db.Socket.Read.{stream}
use fine_db.Server.{State}
use fine_db.Server.Reading.{unread}
use fine_db.Server.Sample.{libraries, begun, begun-IsHealthy, list-IsDynabin, list-HasMemory}
use fine_db.Connection.{request_loop}
use fine_db.Service.{ok_reply}
use fine_db.Service.Refused.{AskedPut, refusals, put_after_start}

-- An asynchronous PUT, and a synchronous one of compressed data.
abbrev puts : List AskedPut
puts =
    record { code = 3; key = 107 ∷ []; value = 118 ∷ [] }
    ∷ record { code = 83; key = 108 ∷ []; value = 0 ∷ 119 ∷ [] }
    ∷ []

abbrev chunks : List Recv
chunks =
    received (5 ∷ 3 ∷ 0 ∷ 1 ∷ 107 ∷ 0 ∷ 0 ∷ 0 ∷ 1 ∷ 118 ∷ 83 ∷ 0 ∷ [])
    ∷ received (1 ∷ 108 ∷ 0 ∷ 0 ∷ 0 ∷ 2 ∷ 0 ∷ 119 ∷ 9 ∷ [])
    ∷ []

abbrev asking : State libraries
asking = begun chunks

put_after_start_example :
    (s' : State libraries) × ((fuel : ℕ)
      → request_loop libraries (suc (length puts) + fuel) asking ≡ request_loop libraries fuel s')
    × (s'.sent ≡ ([] ++ ok_reply) ++ refusals puts)
    × (unread libraries s' ≡ 9 ∷ [])
    × (s'.transaction ≡ some tt)
    × ((sample-IsLmdb false).view s'.env tt
        ≡ some (record { readonly = true; store = empty_disk.store }))
    × ((sample-IsLmdb false).committed s'.env ≡ empty_disk.store)
unfolding htons htonl stream command_code request_command request_has_compressed
put_after_start_example =
    put_after_start libraries (sample-IsLmdb false) list-IsDynabin list-HasMemory tt puts (9 ∷ [])
      asking (begun-IsHealthy chunks) refl refl refl
      (
        (refl, omega arith, omega arith, (0 ∷ 118 ∷ [], refl)),
        ((refl, omega arith, omega arith, (0 ∷ 119 ∷ [], refl)), tt),
      )
      refl
