-- ===== src/Writer/Tests.antt =====
-- Runs of the writer thread.
use fine_db.Prelude.{
  ℕ, ◌++◌, ◌≡◌, refl, true, false, Option, none, some, List, [], ◌∷◌, Bytes, arith,
}
use fine_db.Wire.{htons, htonl}
use fine_db.Lmdb.{insert, erase}
use fine_db.Lmdb.Sample.{sample, sample-IsLmdb, empty_disk}
use fine_db.Socket.{received}
use fine_db.Socket.Read.{stream}
use fine_db.Server.{State, WriterMsg, write_put, write_del, write_drop}
use fine_db.Server.Sample.{libraries, begun, begun-IsHealthy, list-IsDynabin, list-HasMemory}
use fine_db.Command.Put.{command_put}
use fine_db.Database.{database_put, database_del}
use fine_db.Writer.{writer_loop}
use fine_db.Writer.Interleaved.{
  System, begun as begun_with, posted, looked, wrote, taken_from, send_msg, read_now, write_next,
  start, next, replay_log, Reachable-replay,
}
use fine_db.Writer.Replay.{replay, writer_loop-replay}
use fine_db.Writer.Later.{settled, command_put-settled}

abbrev key : Bytes
key = 107 ∷ []

-- Two writes of which the second is refused, a failure of nn_recv, and two removals of one key.
abbrev msgs : List (Option WriterMsg)
msgs =
    some (write_put none key (1 ∷ []) false)
    ∷ some (write_put none key (2 ∷ []) true)
    ∷ none
    ∷ some (write_drop (some key))
    ∷ some (write_del none key)
    ∷ some (write_del none key)
    ∷ []

log :
    (writer_loop (sample false) msgs empty_disk).0
    ≡ true ∷ false ∷ false ∷ false ∷ true ∷ false ∷ []
unfolding writer_loop insert erase database_put database_del
log = refl

writer_loop-replay_example :
    let r = writer_loop (sample false) msgs empty_disk in
    ((sample-IsLmdb false).committed r.1 ≡ replay msgs r.0 empty_disk.store)
    × ((sample-IsLmdb false).open_txns r.1 ≡ 0)
writer_loop-replay_example =
    writer_loop-replay (sample false) (sample-IsLmdb false) (λ t e h. ground arith) msgs empty_disk
      (tt, (tt, (tt, (tt, (tt, (tt, tt))))))

abbrev put_sent : State libraries
put_sent = begun (received (0 ∷ 1 ∷ 107 ∷ 0 ∷ 0 ∷ 0 ∷ []) ∷ received (1 ∷ 118 ∷ []) ∷ [])

command_put-settled_example :
    settled libraries (command_put libraries false false false put_sent).1
    ≡ (command_put libraries true false false put_sent).1.env
unfolding htons htonl stream
command_put-settled_example =
    command_put-settled libraries list-IsDynabin list-HasMemory false false key (118 ∷ [])
      (0 ∷ 118 ∷ []) [] put_sent (begun-IsHealthy _) refl refl refl (omega arith) (omega arith) refl
      refl

abbrev put_msg : WriterMsg
put_msg = write_put none key (1 ∷ []) false

abbrev del_msg : WriterMsg
del_msg = write_del none key

abbrev at_start : System (sample false)
at_start = begun_with (sample false) empty_disk

-- A thread has sent its message to the writer thread.
abbrev after_send : System (sample false)
after_send = posted (sample false) 1 put_msg at_start

-- Another thread has sent one later.
abbrev two_sent : System (sample false)
two_sent = posted (sample false) 2 del_msg after_send

abbrev after_read : System (sample false)
after_read = looked (sample false) none none key two_sent

-- The writer thread takes the later message first.
abbrev after_del : System (sample false)
after_del = wrote (sample false) 2 del_msg [] after_read

abbrev after_write : System (sample false)
after_write = wrote (sample false) 1 put_msg [] after_del

-- Two threads send messages, a connection reads, and the writer thread takes the messages in the other
-- order.
Reachable-replay_example :
    ((sample-IsLmdb false).committed after_write.env ≡ replay_log after_write.log empty_disk.store)
    × ((i : ℕ) → after_write.sent i ≡ taken_from i after_write.log ++ after_write.pipes i)
Reachable-replay_example =
    Reachable-replay (sample false) (sample-IsLmdb false) (λ t e h. ground arith) empty_disk
      (next
        (next
          (next
            (next (next start (send_msg at_start 1 put_msg tt)) (send_msg after_send 2 del_msg tt))
            (read_now two_sent none none key))
          (write_next after_read 2 del_msg [] tt refl))
        (write_next after_del 1 put_msg [] tt refl))
