-- ===== src/Client/Serving.antt =====
-- What the server does with the requests of the client library.
use fine_db.Prelude.{
  ◌||◌, ◌^◌, ◌<◌, ◌≡◌, refl, true, false, none, some, List, [], ◌∷◌, ◌++◌, Bytes, length, arith,
  append_assoc, ◌∙◌,
}
use fine_db.Yerr.{yenoerr, yenodata, yeaccess}
use fine_db.Wire.{htons, htonl}
use fine_db.Snappy.{IsSnappy}
use fine_db.Dynabin.{IsDynabin, HasMemory}
use fine_db.Protocol.{
  Command, resp_ok, bad_name, server, command_code, request_command, request_has_sync,
  request_has_compressed, request_has_serialized, request_add_sync, request_add_compressed,
}
use fine_db.Database.{database_put, database_get, database_del}
use fine_db.Socket.{Recv}
use fine_db.Socket.Read.{stream}
use fine_db.Server.{Libraries, State}
use fine_db.Server.Reading.{unread, taken, read-front}
use fine_db.Server.Sending.{IsHealthy, replied, response, stored, taken-IsHealthy, send_ok-healthy}
use fine_db.Command.Reply.{answer}
use fine_db.Command.Puts.{command_put-sync}
use fine_db.Command.Deletes.{command_del-sync}
use fine_db.Command.Gets.{command_get-found, command_get-missing, command_get-failed}
use fine_db.Command.Ping.{command_ping}
use fine_db.Connection.{is_some, serve_request, on_request, execute, commands}
use fine_db.Client.{put_request, del_request}
use fine_db.Client.Get.{get_request}

abbrev pub put_fields : Bytes → Bytes → Bytes → Bytes
put_fields key z rest = htons (length key) ++ (key ++ (htonl (length z) ++ (z ++ rest)))

pub put_request-fields :
    (key z rest : Bytes) → put_request true key z ++ rest ≡ 83 ∷ put_fields key z rest
unfolding command_code request_add_compressed request_add_sync
put_request-fields key z rest = simp append_assoc

pub del_request-fields :
    (key rest : Bytes) → del_request true key ++ rest ≡ 18 ∷ (htons (length key) ++ (key ++ rest))
unfolding command_code request_add_sync
del_request-fields key rest = simp append_assoc

pub get_request-fields :
    (key rest : Bytes) → get_request key ++ rest ≡ 65 ∷ (htons (length key) ++ (key ++ rest))
unfolding command_code request_add_compressed
get_request-fields key rest = simp append_assoc

module _ (lib : Libraries) (doc : IsDynabin lib.dynabin) (memory : HasMemory lib.dynabin) where
  -- On a connection whose allocations and transmissions succeed, a synchronous PUT of the client
  -- library, in whatever chunks it arrives, of a key shorter than 2^16 with compressed data
  -- shorter than 2^32, makes one call of database_put, in the thread's transaction and database;
  -- it is answered by RESP_OK or RESP_ERR_BAD_NAME as the call succeeds or not, and the loop on
  -- requests goes on behind it.
  pub serve_request-put :
      (key z rest : Bytes) (s : State lib)
      → IsHealthy lib s
      → length key < 2 ^ 16
      → length z < 2 ^ 32
      → unread lib s ≡ put_request true key z ++ rest
      → let r = database_put lib.lmdb s.transaction false s.dbname key z s.env in
        (b : lib.Buffer) × (rs : List Recv) × (serve_request lib s ≡ (
          true,
          replied lib
              (stored lib (taken lib s b rs) r.1)
              (response lib (answer r.0) false false none),
        ))
        × (lib.bytes b ++ stream rs ≡ rest)
  unfolding serve_request on_request execute commands request_command request_has_sync
      request_has_compressed request_has_serialized
  serve_request-put key z rest s h short_key short_value front =
      let (b1, rs1, ran1, left1) =
        read-front lib doc memory (83 ∷ []) (put_fields key z rest) s h.connected
          (front ∙ put_request-fields key z rest) in
      let s1 = taken lib s b1 rs1 in
      let (b, rs, ran, left) =
        command_put-sync lib doc memory true false key z z rest s1 (taken-IsHealthy lib b1 rs1 h)
          short_key short_value refl left1 in
      (b, rs, ground (arith, ran1, ran), left)

  -- On a connection whose allocations and transmissions succeed, a synchronous DEL of the client
  -- library, in whatever chunks it arrives, of a key shorter than 2^16, makes one call of
  -- database_del, in the thread's transaction and database; it is answered by RESP_OK or
  -- RESP_ERR_BAD_NAME as the call succeeds or not, and the loop on requests goes on behind it.
  pub serve_request-del :
      (key rest : Bytes) (s : State lib)
      → IsHealthy lib s
      → length key < 2 ^ 16
      → unread lib s ≡ del_request true key ++ rest
      → let r = database_del lib.lmdb s.transaction s.dbname key s.env in
        (b : lib.Buffer) × (rs : List Recv) × (serve_request lib s ≡ (
          true,
          replied lib
              (stored lib (taken lib s b rs) r.1)
              (response lib (answer r.0) false false none),
        ))
        × (lib.bytes b ++ stream rs ≡ rest)
  unfolding serve_request on_request execute commands request_command request_has_sync
      request_has_compressed request_has_serialized
  serve_request-del key rest s h short front =
      let (b1, rs1, ran1, left1) =
        read-front lib doc memory (18 ∷ []) (htons (length key) ++ (key ++ rest)) s h.connected
          (front ∙ del_request-fields key rest) in
      let s1 = taken lib s b1 rs1 in
      let (b, rs, ran, left) =
        command_del-sync lib doc memory false false key rest s1 (taken-IsHealthy lib b1 rs1 h) short
          left1 in
      (b, rs, ground (arith, ran1, ran), left)

  -- On such a connection, a GET of the client library whose key database_get finds is answered by
  -- RESP_OK with what is stored, still compressed, and the loop on requests goes on behind it.
  pub serve_request-get :
      IsSnappy lib.snappy
      → (key z rest : Bytes) (s : State lib) → IsHealthy lib s
      → length key < 2 ^ 16
      → unread lib s ≡ get_request key ++ rest
      → (database_get lib.lmdb s.unset s.transaction s.dbname key s.env).0 ≡ (yenoerr, some z)
      → let r = database_get lib.lmdb s.unset s.transaction s.dbname key s.env in
        (b : lib.Buffer) × (rs : List Recv) × (serve_request lib s ≡ (
          true,
          replied lib
              (stored lib (taken lib s b rs) r.1)
              (response lib resp_ok false true (some z)),
        ))
        × (lib.bytes b ++ stream rs ≡ rest)
  unfolding serve_request on_request execute commands request_command request_has_sync
      request_has_compressed request_has_serialized
  serve_request-get zip key z rest s h short front there =
      let (b1, rs1, ran1, left1) =
        read-front lib doc memory (65 ∷ []) (htons (length key) ++ (key ++ rest)) s h.connected
          (front ∙ get_request-fields key rest) in
      let s1 = taken lib s b1 rs1 in
      let (b, rs, ran, left) =
        command_get-found lib doc memory zip (is_some lib s.transaction || request_has_sync 65) true
          false key z z rest s1 (taken-IsHealthy lib b1 rs1 h) short refl left1 there in
      (b, rs, ground (arith, ran1, ran), left)

  pub serve_request-get_missing :
      (key rest : Bytes) (s : State lib)
      → IsHealthy lib s
      → length key < 2 ^ 16
      → unread lib s ≡ get_request key ++ rest
      → (database_get lib.lmdb s.unset s.transaction s.dbname key s.env).0.0 ≡ yenodata
      → let r = database_get lib.lmdb s.unset s.transaction s.dbname key s.env in
        (b : lib.Buffer) × (rs : List Recv) × (serve_request lib s ≡ (
          true,
          replied lib (stored lib (taken lib s b rs) r.1) (response lib bad_name false false none),
        ))
        × (lib.bytes b ++ stream rs ≡ rest)
  unfolding serve_request on_request execute commands request_command request_has_sync
      request_has_compressed request_has_serialized
  serve_request-get_missing key rest s h short front missing =
      let (b1, rs1, ran1, left1) =
        read-front lib doc memory (65 ∷ []) (htons (length key) ++ (key ++ rest)) s h.connected
          (front ∙ get_request-fields key rest) in
      let s1 = taken lib s b1 rs1 in
      let (b, rs, ran, left) =
        command_get-missing lib doc memory (is_some lib s.transaction || request_has_sync 65) true
          false key rest s1 (taken-IsHealthy lib b1 rs1 h) short left1 missing in
      (b, rs, ground (arith, ran1, ran), left)

  pub serve_request-get_failed :
      (key rest : Bytes) (s : State lib)
      → IsHealthy lib s
      → length key < 2 ^ 16
      → unread lib s ≡ get_request key ++ rest
      → (database_get lib.lmdb s.unset s.transaction s.dbname key s.env).0.0 ≡ yeaccess
      → let r = database_get lib.lmdb s.unset s.transaction s.dbname key s.env in
        (b : lib.Buffer) × (rs : List Recv) × (serve_request lib s ≡ (
          false,
          replied lib (stored lib (taken lib s b rs) r.1) (response lib server false false none),
        ))
  unfolding serve_request on_request execute commands request_command request_has_sync
      request_has_compressed request_has_serialized
  serve_request-get_failed key rest s h short front failed =
      let (b1, rs1, ran1, left1) =
        read-front lib doc memory (65 ∷ []) (htons (length key) ++ (key ++ rest)) s h.connected
          (front ∙ get_request-fields key rest) in
      let s1 = taken lib s b1 rs1 in
      let (b, rs, ran) =
        command_get-failed lib doc memory (is_some lib s.transaction || request_has_sync 65) true
          false key rest s1 (taken-IsHealthy lib b1 rs1 h) short left1 failed in
      (b, rs, ground (arith, ran1, ran))

  pub serve_request-ping :
      (rest : Bytes) (s : State lib)
      → IsHealthy lib s
      → unread lib s ≡ command_code Command.ping ∷ rest
      → (b : lib.Buffer) × (rs : List Recv) × (serve_request lib s
          ≡ (true, replied lib (taken lib s b rs) (response lib resp_ok false false none)))
        × (lib.bytes b ++ stream rs ≡ rest)
  unfolding serve_request on_request execute commands request_command request_has_sync
      request_has_compressed request_has_serialized command_ping command_code
  serve_request-ping rest s h front =
      let (b, rs, ran, left) = read-front lib doc memory (0 ∷ []) rest s h.connected front in
      (
        b,
        rs,
        ground (arith, ran, send_ok-healthy lib (taken lib s b rs) (taken-IsHealthy lib b rs h)),
        left,
      )
