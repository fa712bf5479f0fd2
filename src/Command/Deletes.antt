-- ===== src/Command/Deletes.antt =====
-- What a complete DEL request does, whatever the chunks in which it arrives.
use fine_db.Prelude.{◌^◌, ◌<◌, ◌≡◌, Bool, true, false, none, List, [], ◌++◌, Bytes, length, arith}
use fine_db.Yerr.{yenoerr}
use fine_db.Exec.{◌>>=◌, label}
use fine_db.Wire.{htons}
use fine_db.Dynabin.{IsDynabin, HasMemory}
use fine_db.Protocol.{resp_ok}
use fine_db.Database.{database_del}
use fine_db.Socket.{Recv}
use fine_db.Socket.Read.{stream}
use fine_db.Server.{Libraries, State, write_del}
use fine_db.Server.Reading.{unread, taken}
use fine_db.Server.Sending.{
  IsHealthy, replied, queued, response, ymalloc-healthy, strdup-healthy, nn_send-healthy, stored,
  on_env_lem, taken-IsHealthy, stored-IsHealthy,
}
use fine_db.Command.Reply.{answer}
use fine_db.Command.Keys.{read_key-front, early-sync, early-async, respond-healthy}
use fine_db.Command.Del.{command_del, del_now, del_later}

module _ (lib : Libraries) (doc : IsDynabin lib.dynabin) (memory : HasMemory lib.dynabin) where
  -- On a connection whose allocations, transmissions and messages to the writer thread succeed, a
  -- complete asynchronous DEL of a key shorter than 2^16 is answered by RESP_OK and queues one
  -- message for the writer thread, with the selected database and the key. It takes just its own
  -- bytes, and the database is not touched.
  pub command_del-async :
      (compress serialized : Bool) (key rest : Bytes) (s : State lib)
      → IsHealthy lib s
      → s.pushes ≡ []
      → length key < 2 ^ 16
      → unread lib s ≡ htons (length key) ++ (key ++ rest)
      → (b : lib.Buffer) × (rs : List Recv) × (command_del lib false compress serialized s ≡ (
        yenoerr,
        queued lib
            (replied lib (taken lib s b rs) (response lib resp_ok false false none))
            (write_del s.dbname key),
      ))
        × (lib.bytes b ++ stream rs ≡ rest)
  unfolding command_del del_later ◌>>=◌ label
  command_del-async compress serialized key rest s h pushes short front =
      let (b, rs, ran, left) = read_key-front lib doc memory key rest s h short front in
      let s1 = taken lib s b rs in
      let h1 = taken-IsHealthy lib b rs h in
      let s2 = replied lib s1 (response lib resp_ok false false none) in
      (
        b,
        rs,
        ground (
          arith,
          ran,
          early-async lib s1 h1,
          ymalloc-healthy lib s2 h.memory,
          strdup-healthy lib s2 h.memory,
          nn_send-healthy lib (write_del s.dbname key) s2 pushes,
        ),
        left,
      )

  -- On a connection whose allocations and transmissions succeed, a complete synchronous DEL of a
  -- key shorter than 2^16 makes one call of database_del, in the thread's transaction and
  -- database, and is answered by RESP_OK or RESP_ERR_BAD_NAME as the call succeeds or not. It
  -- takes just its own bytes.
  pub command_del-sync :
      (compress serialized : Bool) (key rest : Bytes) (s : State lib)
      → IsHealthy lib s
      → length key < 2 ^ 16
      → unread lib s ≡ htons (length key) ++ (key ++ rest)
      → let r = database_del lib.lmdb s.transaction s.dbname key s.env in
        (b : lib.Buffer) × (rs : List Recv) × (command_del lib true compress serialized s ≡ (
          yenoerr,
          replied lib
              (stored lib (taken lib s b rs) r.1)
              (response lib (answer r.0) false false none),
        ))
        × (lib.bytes b ++ stream rs ≡ rest)
  unfolding command_del del_now ◌>>=◌ label
  command_del-sync compress serialized key rest s h short front =
      let (b, rs, ran, left) = read_key-front lib doc memory key rest s h short front in
      let r = database_del lib.lmdb s.transaction s.dbname key s.env in
      let s1 = taken lib s b rs in
      let s2 = stored lib s1 r.1 in
      let h2 = stored-IsHealthy lib r.1 (taken-IsHealthy lib b rs h) in
      (
        b,
        rs,
        ground (
          arith,
          ran,
          early-sync lib s1,
          ymalloc-healthy lib s1 h.memory,
          on_env_lem lib (λ t. database_del lib.lmdb t.transaction t.dbname key) s1,
          respond-healthy lib r.0 s2 h2,
        ),
        left,
      )
