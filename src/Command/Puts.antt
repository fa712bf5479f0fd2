-- ===== src/Command/Puts.antt =====
-- What a complete PUT request does, whatever the chunks in which it arrives.
use fine_db.Prelude.{
  ◌^◌, ◌<◌, ◌≡◌, refl, ap, Bool, true, false, none, some, List, [], ◌∷◌, ◌++◌, Bytes, length, arith,
}
use fine_db.Yerr.{yenoerr}
use fine_db.Exec.{◌>>=◌, label}
use fine_db.Wire.{htons, htonl, ntohl-htonl, length-htonl}
use fine_db.Dynabin.{IsDynabin, HasMemory}
use fine_db.Protocol.{resp_ok}
use fine_db.Database.{database_put}
use fine_db.Socket.{Recv}
use fine_db.Socket.Read.{stream}
use fine_db.Server.{Libraries, State, write_put}
use fine_db.Server.Reading.{unread, taken, read-front}
use fine_db.Server.Sending.{
  IsHealthy, replied, queued, response, ymalloc-healthy, strdup-healthy, nn_send-healthy, stored,
  on_env_lem, taken-IsHealthy, stored-IsHealthy,
}
use fine_db.Command.Reply.{answer}
use fine_db.Command.Keys.{read_key-front, early-sync, early-async, respond-healthy}
use fine_db.Command.Put.{command_put, read_block, read_value, zipped, or_jump, put_now, put_later}

module _ (lib : Libraries) where
  -- What is stored for a value: the value as it is if the client says that it is compressed, and
  -- otherwise what Snappy makes of it.
  abbrev pub IsStored : Bool → Bytes → Bytes → Type 0
  IsStored true value z = z ≡ value
  IsStored false value z = lib.snappy_compress value ≡ some z

  zipped-healthy :
      (compress : Bool) (value z : Bytes) (s : State lib)
      → s.allocs ≡ []
      → IsStored compress value z
      → zipped lib compress value s ≡ (some z, s)
  unfolding zipped or_jump ◌>>=◌
  zipped-healthy true value z s h e = ground arith
  zipped-healthy false value z s h e = ground (arith, ymalloc-healthy lib s h)

module _ (lib : Libraries) (doc : IsDynabin lib.dynabin) (memory : HasMemory lib.dynabin) where
  read_block-front :
      (value rest : Bytes) (s : State lib)
      → IsHealthy lib s
      → unread lib s ≡ value ++ rest
      → (b : lib.Buffer) × (rs : List Recv) × (read_block lib (length value) s
          ≡ (some value, taken lib s b rs))
        × (lib.bytes b ++ stream rs ≡ rest)
  unfolding read_block ◌>>=◌
  read_block-front [] rest s h front = (s.buff, s.recvs, refl, front)
  read_block-front (x ∷ xs) rest s h front =
      let (b, rs, ran, left) = read-front lib doc memory (x ∷ xs) rest s h.connected front in
      (b, rs, ground (arith, ran, ymalloc-healthy lib (taken lib s b rs) h.memory), left)

  read_value-front :
      (value rest : Bytes) (s : State lib)
      → IsHealthy lib s
      → length value < 2 ^ 32
      → unread lib s ≡ htonl (length value) ++ (value ++ rest)
      → (b : lib.Buffer) × (rs : List Recv) × (read_value lib s ≡ (some value, taken lib s b rs))
        × (lib.bytes b ++ stream rs ≡ rest)
  unfolding read_value ◌>>=◌
  read_value-front value rest s h short front =
      let (b1, rs1, ran1, left1) =
        read-front lib doc memory (htonl (length value)) (value ++ rest) s h.connected front in
      let s1 = taken lib s b1 rs1 in
      let h1 = taken-IsHealthy lib b1 rs1 h in
      let (b2, rs2, ran2, left2) = read_block-front value rest s1 h1 left1 in
      (
        b2,
        rs2,
        ground (
          arith,
          ran1,
          ran2,
          length-htonl (length value),
          ap (λ n. read_block lib n s1) (ntohl-htonl (length value) short),
        ),
        left2,
      )

  -- On a connection whose allocations, transmissions and messages to the writer thread succeed, a
  -- complete asynchronous PUT of a key shorter than 2^16 with a value shorter than 2^32 that can
  -- be compressed is answered by RESP_OK and queues one message for the writer thread: the
  -- selected database, the key, and the value as it is to be stored. It takes just its own bytes,
  -- and the database is not touched.
  pub command_put-async :
      (compress serialized : Bool) (key value z rest : Bytes) (s : State lib)
      → IsHealthy lib s
      → s.pushes ≡ []
      → length key < 2 ^ 16
      → length value < 2 ^ 32
      → IsStored lib compress value z
      → unread lib s ≡ htons (length key) ++ (key ++ (htonl (length value) ++ (value ++ rest)))
      → (b : lib.Buffer) × (rs : List Recv) × (command_put lib false compress serialized s ≡ (
        yenoerr,
        queued lib
            (replied lib (taken lib s b rs) (response lib resp_ok false false none))
            (write_put s.dbname key z false),
      ))
        × (lib.bytes b ++ stream rs ≡ rest)
  unfolding command_put put_later ◌>>=◌ label
  command_put-async compress serialized key value z rest s h pushes short_key short_value e front =
      let (b1, rs1, ran1, left1) =
        read_key-front lib doc memory key (htonl (length value) ++ (value ++ rest)) s h short_key
          front in
      let s1 = taken lib s b1 rs1 in
      let h1 = taken-IsHealthy lib b1 rs1 h in
      let (b, rs, ran, left) = read_value-front value rest s1 h1 short_value left1 in
      let s2 = taken lib s b rs in
      let h2 = taken-IsHealthy lib b rs h in
      let s3 = replied lib s2 (response lib resp_ok false false none) in
      (
        b,
        rs,
        ground (
          arith,
          ran1,
          ran,
          early-async lib s2 h2,
          ymalloc-healthy lib s3 h.memory,
          zipped-healthy lib compress value z s3 h.memory e,
          strdup-healthy lib s3 h.memory,
          nn_send-healthy lib (write_put s.dbname key z false) s3 pushes,
        ),
        left,
      )

  -- On a connection whose allocations and transmissions succeed, a complete synchronous PUT of a
  -- key shorter than 2^16 with a value shorter than 2^32 that can be compressed makes one call of
  -- database_put, in the thread's transaction and database and without create_only, and is
  -- answered by RESP_OK or RESP_ERR_BAD_NAME as the call succeeds or not. It takes just its own
  -- bytes.
  pub command_put-sync :
      (compress serialized : Bool) (key value z rest : Bytes) (s : State lib)
      → IsHealthy lib s
      → length key < 2 ^ 16
      → length value < 2 ^ 32
      → IsStored lib compress value z
      → unread lib s ≡ htons (length key) ++ (key ++ (htonl (length value) ++ (value ++ rest)))
      → let r = database_put lib.lmdb s.transaction false s.dbname key z s.env in
        (b : lib.Buffer) × (rs : List Recv) × (command_put lib true compress serialized s ≡ (
          yenoerr,
          replied lib
              (stored lib (taken lib s b rs) r.1)
              (response lib (answer r.0) false false none),
        ))
        × (lib.bytes b ++ stream rs ≡ rest)
  unfolding command_put put_now ◌>>=◌ label
  command_put-sync compress serialized key value z rest s h short_key short_value e front =
      let (b1, rs1, ran1, left1) =
        read_key-front lib doc memory key (htonl (length value) ++ (value ++ rest)) s h short_key
          front in
      let s1 = taken lib s b1 rs1 in
      let h1 = taken-IsHealthy lib b1 rs1 h in
      let (b, rs, ran, left) = read_value-front value rest s1 h1 short_value left1 in
      let s2 = taken lib s b rs in
      let r = database_put lib.lmdb s.transaction false s.dbname key z s.env in
      let s3 = stored lib s2 r.1 in
      let h3 = stored-IsHealthy lib r.1 (taken-IsHealthy lib b rs h) in
      (
        b,
        rs,
        ground (
          arith,
          ran1,
          ran,
          early-sync lib s2,
          ymalloc-healthy lib s2 h.memory,
          zipped-healthy lib compress value z s2 h.memory e,
          on_env_lem lib (λ t. database_put lib.lmdb s.transaction false t.dbname key z) s2,
          respond-healthy lib r.0 s3 h3,
        ),
        left,
      )
