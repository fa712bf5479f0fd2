-- ===== src/Command/Tests.antt =====
-- Runs of the handlers on the sample libraries: the stream of a client in two chunks.
use fine_db.Prelude.{◌≡◌, refl, true, false, none, some, List, [], ◌∷◌, ◌++◌, Bytes, arith}
use fine_db.Yerr.{yenoerr, yeio}
use fine_db.Wire.{htons, htonl}
use fine_db.Lmdb.{insert}
use fine_db.Lmdb.Sample.{Disk, empty_disk}
use fine_db.Protocol.{resp_ok, server}
use fine_db.Database.{database_put, database_get}
use fine_db.Socket.{Recv, received}
use fine_db.Socket.Read.{stream}
use fine_db.Server.{State, write_put}
use fine_db.Server.Reading.{taken}
use fine_db.Server.Sending.{IsHealthy, replied, queued, stored, response}
use fine_db.Server.Sample.{
  libraries, begun, begun-IsHealthy, list-IsDynabin, list-HasMemory, marking-IsSnappy,
}
use fine_db.Command.Listing.{command_list}
use fine_db.Command.Lists.{elements, command_list-elements}
use fine_db.Command.Reply.{answer}
use fine_db.Command.Del.{command_del}
use fine_db.Command.Put.{command_put}
use fine_db.Command.Get.{command_get}
use fine_db.Command.StartStop.{set_transaction}
use fine_db.Command.Puts.{command_put-async, command_put-sync}
use fine_db.Command.Gets.{command_get-found}
use fine_db.Command.Failures.{command_del-twice}

abbrev key : Bytes
key = 107 ∷ []

abbrev value : Bytes
value = 118 ∷ 119 ∷ []

-- The key, and one byte of the next request.
abbrev key_asked : State libraries
key_asked = begun (received (0 ∷ []) ∷ received (1 ∷ 107 ∷ 9 ∷ []) ∷ [])

abbrev value_sent : State libraries
value_sent =
    begun (received (0 ∷ 1 ∷ 107 ∷ 0 ∷ 0 ∷ []) ∷ received (0 ∷ 2 ∷ 118 ∷ 119 ∷ 9 ∷ []) ∷ [])

abbrev yes : Bytes
yes = response libraries resp_ok false false none

abbrev full_disk : Disk
full_disk = (database_put libraries.lmdb none false none key (0 ∷ value) empty_disk).1

abbrev in_transaction : State libraries
in_transaction =
    set_transaction libraries (some tt) (libraries.mdb_txn_begin true empty_disk).1 (begun [])

command_put-async_example :
    (b : Bytes) × (rs : List Recv) × (command_put libraries false false false value_sent ≡ (
      yenoerr,
      queued libraries
          (replied libraries (taken libraries value_sent b rs) yes)
          (write_put none key (0 ∷ value) false),
    ))
    × (b ++ stream rs ≡ 9 ∷ [])
unfolding htons stream htonl
command_put-async_example =
    command_put-async libraries list-IsDynabin list-HasMemory false false key value (0 ∷ value)
      (9 ∷ []) value_sent (begun-IsHealthy _) refl (omega arith) (omega arith) refl refl

command_put-sync_example :
    let r = database_put libraries.lmdb none false none key (0 ∷ value) empty_disk in
    (b : Bytes) × (rs : List Recv) × (command_put libraries true false false value_sent ≡ (
      yenoerr,
      replied libraries
          (stored libraries (taken libraries value_sent b rs) r.1)
          (response libraries (answer r.0) false false none),
    ))
    × (b ++ stream rs ≡ 9 ∷ [])
unfolding htons stream htonl
command_put-sync_example =
    command_put-sync libraries list-IsDynabin list-HasMemory false false key value (0 ∷ value)
      (9 ∷ []) value_sent (begun-IsHealthy _) (omega arith) (omega arith) refl refl

abbrev key_stored : State libraries
key_stored = stored libraries key_asked full_disk

command_get-found_example :
    let r = database_get libraries.lmdb none none none key full_disk in
    (b : Bytes) × (rs : List Recv) × (command_get libraries false false true key_stored ≡ (
      yenoerr,
      replied libraries
          (stored libraries (taken libraries key_stored b rs) r.1)
          (response libraries resp_ok true false (some value)),
    ))
    × (b ++ stream rs ≡ 9 ∷ [])
unfolding htons stream database_put database_get insert
command_get-found_example =
    command_get-found libraries list-IsDynabin list-HasMemory marking-IsSnappy false false true key
      value (0 ∷ value) (9 ∷ []) key_stored
      (record { connected = λ h. absurd (ground arith); memory = refl; line = refl }) (omega arith)
      refl refl refl

abbrev in_transaction-IsHealthy : IsHealthy libraries in_transaction
in_transaction-IsHealthy = record {
  connected = λ h. absurd (ground arith);
  memory = refl;
  line = refl;
}

abbrev writer_gone : State libraries
writer_gone = record key_asked { pushes = false ∷ [] }

command_del-twice_example :
    let r = command_del libraries false false false writer_gone in
    (r.0 ≡ yeio)
    × (r.1.sent ≡ ([] ++ yes) ++ response libraries server false false none)
    × (r.1.queue ≡ [])
    × (r.1.env ≡ empty_disk)
unfolding htons stream
command_del-twice_example =
    command_del-twice libraries list-IsDynabin list-HasMemory false false key (9 ∷ []) []
      writer_gone (record { connected = λ h. absurd (ground arith); memory = refl; line = refl })
      refl (omega arith) refl

-- A client asks for the keys of a database with two.
abbrev list_asked : State libraries
list_asked = record (begun []) {
  env = record empty_disk { listing = (key, value) ∷ (value, key) ∷ [] };
}

command_list-elements_example :
    let r = command_list libraries true false false list_asked in
    (r.0 ≡ yenoerr)
    × (r.1.sent ≡ (([] ++ yes) ++ elements ((key, value) ∷ (value, key) ∷ [])) ++ 0 ∷ [])
    × (r.1.env ≡ list_asked.env)
command_list-elements_example =
    command_list-elements libraries true false false 4 tt none ((key, value) ∷ (value, key) ∷ [])
      list_asked refl
      (record { connected = λ h. absurd (ground arith); memory = refl; line = refl }) refl refl refl
      refl
