-- ===== src/Command/Gets.antt =====
-- What a complete GET request does, whatever the chunks in which it arrives.
use fine_db.Prelude.{
  ◌^◌, ◌<◌, ◌≡◌, refl, Bool, true, false, none, some, List, [], ◌∷◌, ◌++◌, Bytes, length, arith,
}
use fine_db.Yerr.{yeaccess, yeio, yenoerr, yenodata}
use fine_db.Exec.{◌>>=◌, label}
use fine_db.Wire.{htons}
use fine_db.Database.{database_get}
use fine_db.Dynabin.{IsDynabin, HasMemory}
use fine_db.Snappy.{IsSnappy}
use fine_db.Protocol.{server, resp_ok, bad_name}
use fine_db.Socket.{Recv}
use fine_db.Socket.Read.{stream}
use fine_db.Server.{Libraries, State, connection_send_error}
use fine_db.Server.Reading.{unread, taken}
use fine_db.Server.Sending.{
  IsHealthy, server_error-healthy, replied, response, send_response-healthy, taken-IsHealthy,
  stored, stored-IsHealthy, on_env_lem,
}
use fine_db.Command.Keys.{read_key-front}
use fine_db.Command.Puts.{IsStored}
use fine_db.Command.Get.{command_get, get_reply, to_send}

module _ (lib : Libraries) where
  to_send-stored :
      IsSnappy lib.snappy
      → (compress : Bool) (value z : Bytes) (s : State lib) → IsStored lib compress value z
      → to_send lib compress (some z) s ≡ (some (some value), s)
  unfolding to_send ◌>>=◌
  to_send-stored zip true value [] s e = ground arith
  to_send-stored zip true value (x ∷ xs) s e = ground arith
  to_send-stored zip false value [] s e = absurd (zip.compress_nonempty value [] e refl)
  to_send-stored zip false value (x ∷ xs) s e = rw (zip.uncompress-compress value (x ∷ xs) e) refl

module _ (lib : Libraries) (doc : IsDynabin lib.dynabin) (memory : HasMemory lib.dynabin) where
  -- On a connection whose allocations and transmissions succeed, a complete GET of a key shorter
  -- than 2^16, for which database_get returns what a PUT stores for some value, is answered by
  -- RESP_OK with that value: as it is stored to a client that compresses, uncompressed to another.
  -- It takes just its own bytes.
  pub command_get-found :
      IsSnappy lib.snappy
      → (sync compress serialized : Bool) (key value z rest : Bytes) (s : State lib)
      → IsHealthy lib s
      → length key < 2 ^ 16
      → IsStored lib compress value z
      → unread lib s ≡ htons (length key) ++ (key ++ rest)
      → (database_get lib.lmdb s.unset s.transaction s.dbname key s.env).0 ≡ (yenoerr, some z)
      → let r = database_get lib.lmdb s.unset s.transaction s.dbname key s.env in
        (b : lib.Buffer) × (rs : List Recv) × (command_get lib sync compress serialized s ≡ (
          yenoerr,
          replied lib
              (stored lib (taken lib s b rs) r.1)
              (response lib resp_ok serialized compress (some value)),
        ))
        × (lib.bytes b ++ stream rs ≡ rest)
  unfolding command_get get_reply ◌>>=◌ label
  command_get-found zip sync compress serialized key value z rest s h short e front there =
      let (b, rs, ran, left) = read_key-front lib doc memory key rest s h short front in
      let r = database_get lib.lmdb s.unset s.transaction s.dbname key s.env in
      let s1 = stored lib (taken lib s b rs) r.1 in
      (
        b,
        rs,
        ground (
          arith,
          ran,
          there,
          on_env_lem lib (λ t. database_get lib.lmdb t.unset t.transaction t.dbname key)
              (taken lib s b rs),
          to_send-stored lib zip compress value z s1 e,
          send_response-healthy lib resp_ok serialized compress (some value) s1
              (stored-IsHealthy lib r.1 (taken-IsHealthy lib b rs h)),
        ),
        left,
      )

  -- On a connection whose allocations and transmissions succeed, a complete GET of a key shorter
  -- than 2^16, for which database_get returns YENODATA, is answered by RESP_ERR_BAD_NAME, and the
  -- connection goes on. It takes just its own bytes.
  pub command_get-missing :
      (sync compress serialized : Bool) (key rest : Bytes) (s : State lib)
      → IsHealthy lib s
      → length key < 2 ^ 16
      → unread lib s ≡ htons (length key) ++ (key ++ rest)
      → (database_get lib.lmdb s.unset s.transaction s.dbname key s.env).0.0 ≡ yenodata
      → let r = database_get lib.lmdb s.unset s.transaction s.dbname key s.env in
        (b : lib.Buffer) × (rs : List Recv) × (command_get lib sync compress serialized s ≡ (
          yenoerr,
          replied lib (stored lib (taken lib s b rs) r.1) (response lib bad_name false false none),
        ))
        × (lib.bytes b ++ stream rs ≡ rest)
  unfolding command_get get_reply ◌>>=◌ label connection_send_error
  command_get-missing sync compress serialized key rest s h short front missing =
      let (b, rs, ran, left) = read_key-front lib doc memory key rest s h short front in
      let r = database_get lib.lmdb s.unset s.transaction s.dbname key s.env in
      let s1 = stored lib (taken lib s b rs) r.1 in
      (
        b,
        rs,
        ground (
          arith,
          ran,
          missing,
          on_env_lem lib (λ t. database_get lib.lmdb t.unset t.transaction t.dbname key)
              (taken lib s b rs),
          send_response-healthy lib bad_name false false none s1
              (stored-IsHealthy lib r.1 (taken-IsHealthy lib b rs h)),
        ),
        left,
      )

  -- On such a connection, a GET for which database_get returns YEACCESS is answered by
  -- RESP_ERR_SERVER and ends the connection.
  pub command_get-failed :
      (sync compress serialized : Bool) (key rest : Bytes) (s : State lib)
      → IsHealthy lib s
      → length key < 2 ^ 16
      → unread lib s ≡ htons (length key) ++ (key ++ rest)
      → (database_get lib.lmdb s.unset s.transaction s.dbname key s.env).0.0 ≡ yeaccess
      → let r = database_get lib.lmdb s.unset s.transaction s.dbname key s.env in
        (b : lib.Buffer) × (rs : List Recv) × (command_get lib sync compress serialized s ≡ (
          yeio,
          replied lib (stored lib (taken lib s b rs) r.1) (response lib server false false none),
        ))
  unfolding command_get get_reply ◌>>=◌ label
  command_get-failed sync compress serialized key rest s h short front broken =
      let (b, rs, ran, left) = read_key-front lib doc memory key rest s h short front in
      let r = database_get lib.lmdb s.unset s.transaction s.dbname key s.env in
      let s1 = stored lib (taken lib s b rs) r.1 in
      (
        b,
        rs,
        ground (
          arith,
          ran,
          broken,
          on_env_lem lib (λ t. database_get lib.lmdb t.unset t.transaction t.dbname key)
              (taken lib s b rs),
          server_error-healthy lib s1 (stored-IsHealthy lib r.1 (taken-IsHealthy lib b rs h)),
        ),
      )
