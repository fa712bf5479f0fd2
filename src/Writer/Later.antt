-- ===== src/Writer/Later.antt =====
-- An asynchronous change, once the writer thread has made it, beside the synchronous one.
use fine_db.Prelude.{
  arith, ◌^◌, ◌<◌, ◌≡◌, Bool, true, false, Option, none, some, List, [], ◌∷◌, ◌++◌, Bytes, length,
}
use fine_db.Wire.{htons, htonl}
use fine_db.Dynabin.{IsDynabin, HasMemory}
use fine_db.Server.{Libraries, State, WriterMsg}
use fine_db.Server.Reading.{unread}
use fine_db.Server.Sending.{IsHealthy}
use fine_db.Command.Put.{command_put}
use fine_db.Command.Puts.{IsStored, command_put-async, command_put-sync}
use fine_db.Command.Del.{command_del}
use fine_db.Command.Deletes.{command_del-async, command_del-sync}
use fine_db.Writer.{writer_loop}

module _ (lib : Libraries) where
  arrivals : List WriterMsg → List (Option WriterMsg)
  arrivals [] = []
  arrivals (msg ∷ msgs) = some msg ∷ arrivals msgs

  -- The environment after the writer thread has worked off a thread's queue.
  unfoldable pub settled : State lib → lib.Env
  unfolding arrivals
  settled s = (writer_loop lib.lmdb (arrivals s.queue) s.env).1

module _ (lib : Libraries) (doc : IsDynabin lib.dynabin) (memory : HasMemory lib.dynabin) where
  -- On a connection where no call outside database.c fails, outside a transaction and with no
  -- other message queued: a complete PUT has the same effect on the database whether it is
  -- synchronous or not, once the writer thread has worked off the queue. The key is shorter than
  -- 2^16, the value shorter than 2^32.
  pub command_put-settled :
      (compress serialized : Bool) (key value z rest : Bytes) (s : State lib)
      → IsHealthy lib s
      → s.pushes ≡ []
      → s.queue ≡ []
      → s.transaction ≡ none
      → length key < 2 ^ 16
      → length value < 2 ^ 32
      → IsStored lib compress value z
      → unread lib s ≡ htons (length key) ++ (key ++ (htonl (length value) ++ (value ++ rest)))
      → settled lib (command_put lib false compress serialized s).1
        ≡ (command_put lib true compress serialized s).1.env
  unfolding settled writer_loop
  command_put-settled compress serialized key value z rest s h pushes queue txn k v e front =
      let (b, rs, later, left) =
        command_put-async lib doc memory compress serialized key value z rest s h pushes k v e
          front in
      let (c, ts, now, left') =
        command_put-sync lib doc memory compress serialized key value z rest s h k v e front in
      ground (arith, later, now)

  -- On a connection where no call outside database.c fails, outside a transaction and with no
  -- other message queued: a complete DEL of a key shorter than 2^16 has the same effect on the
  -- database whether it is synchronous or not, once the writer thread has worked off the queue.
  pub command_del-settled :
      (compress serialized : Bool) (key rest : Bytes) (s : State lib)
      → IsHealthy lib s
      → s.pushes ≡ []
      → s.queue ≡ []
      → s.transaction ≡ none
      → length key < 2 ^ 16
      → unread lib s ≡ htons (length key) ++ (key ++ rest)
      → settled lib (command_del lib false compress serialized s).1
        ≡ (command_del lib true compress serialized s).1.env
  unfolding settled writer_loop
  command_del-settled compress serialized key rest s h pushes queue txn k front =
      let (b, rs, later, left) =
        command_del-async lib doc memory compress serialized key rest s h pushes k front in
      let (c, ts, now, left') =
        command_del-sync lib doc memory compress serialized key rest s h k front in
      ground (arith, later, now)
