-- ===== src/Service/Settles.antt =====
-- A connection thread's work and the writer thread's after it, beside what the specification says of
-- the data.
use fine_db.Prelude.{ℕ, ◌≡◌, subst, Option, List, [], Bytes}
use fine_db.Lmdb.{IsLmdb}
use fine_db.Dynabin.{IsDynabin, HasMemory}
use fine_db.Snappy.{IsSnappy}
use fine_db.Database.Atomic.{CommitsSucceed}
use fine_db.Socket.{Socket}
use fine_db.Server.{Libraries, State}
use fine_db.Connection.{connection_thread_execution, idle}
use fine_db.Writer.{writer_loop}
use fine_db.Writer.Replay.{replay, writer_loop-replay}
use fine_db.Writer.Queues.{
  received_all, QueueOnDefault, QueueOnDefault-snoc, received_all-AllOnDefault,
}
use fine_db.Service.{
  Talk, Request, Sends, Contents, Answers, ponged, put_done, put_refused, put_queued, del_done,
  del_refused, del_queued, get_found, get_missing, Serves, all_served, cut_off, answered,
  get_failed, ServesAll, all_done, connection,
}
use fine_db.Service.Plain.{contents}
use fine_db.Service.Refines.{connection_thread_execution-ServesAll}

-- What is queued is for the default database.
pub Answers-QueueOnDefault :
    {c c' : Contents} {r : Request} {out : Bytes}
    → Answers c r out c'
    → QueueOnDefault c.1
    → QueueOnDefault c'.1
Answers-QueueOnDefault ponged q = q
Answers-QueueOnDefault (put_done key z) q = q
Answers-QueueOnDefault (put_refused key z) q = q
Answers-QueueOnDefault (put_queued key z) q = QueueOnDefault-snoc _ _ q tt
Answers-QueueOnDefault (del_done key there) q = q
Answers-QueueOnDefault (del_refused key) q = q
Answers-QueueOnDefault (del_queued key) q = QueueOnDefault-snoc _ _ q tt
Answers-QueueOnDefault (get_found key z there) q = q
Answers-QueueOnDefault (get_missing key gone) q = q

Serves-QueueOnDefault :
    {part : Bytes} {c c' : Contents} {rs : List Request} {out : Bytes}
    → Serves part c rs out c'
    → QueueOnDefault c.1
    → QueueOnDefault c'.1
Serves-QueueOnDefault (all_served e) q = q
Serves-QueueOnDefault (cut_off e) q = q
Serves-QueueOnDefault (answered step more) q =
    Serves-QueueOnDefault more (Answers-QueueOnDefault step q)
Serves-QueueOnDefault (get_failed key) q = q

ServesAll-QueueOnDefault :
    {c c' : Contents} {all : List Talk} {outs : List Bytes}
    → ServesAll c all outs c'
    → QueueOnDefault c.1
    → QueueOnDefault c'.1
ServesAll-QueueOnDefault all_done q = q
ServesAll-QueueOnDefault (connection one more) q =
    ServesAll-QueueOnDefault more (Serves-QueueOnDefault one q)

module _ (lib : Libraries) (laws : IsLmdb lib.lmdb) (doc : IsDynabin lib.dynabin)
    (memory : HasMemory lib.dynabin) where
  open laws use {committed}

  -- Where commits succeed: an idle thread whose allocations and messages succeed, with no message
  -- queued before, serves the connections that it gets as the specification says, one after the
  -- other. On each of them the client sends, in whatever chunks, PINGs, GETs, and synchronous and
  -- asynchronous PUTs and DELs of the client library, and may break off in the middle of one more;
  -- nothing of what the server sends is lost, and there is one unit of fuel more than there are
  -- whole requests. What is sent on each connection is the replies to its requests, and
  -- RESP_ERR_SERVER for a part of one, which changes nothing; what is committed and queued is what the changes make of it that
  -- were not refused; and when the writer thread has worked off the queue after that, what is
  -- committed is what the queued messages that it calls done make of that data, in their order.
  pub connections_settle :
      IsSnappy lib.snappy
      → CommitsSucceed lib.lmdb laws
      → (fuel : ℕ) (incoming : List (Option (ℕ × Socket))) (all : List Talk) (s : State lib)
      → Sends fuel incoming all
      → s.thread ≡ idle lib
      → s.allocs ≡ []
      → s.pushes ≡ []
      → s.queue ≡ []
      → let r = connection_thread_execution lib fuel incoming s in
        let w = writer_loop lib.lmdb (received_all r.1.queue) r.1.env in
        ServesAll (committed s.env, []) all r.0 (committed r.1.env, r.1.queue)
        × (committed w.1 ≡ replay (received_all r.1.queue) w.0 (committed r.1.env))
  connections_settle zip good fuel incoming all s sends free memory_lasts posts fresh =
      let r = connection_thread_execution lib fuel incoming s in
      let served : ServesAll (committed s.env, s.queue) all r.0 (contents lib laws r.1) =
        connection_thread_execution-ServesAll lib laws doc memory zip good fuel incoming all s sends
          free memory_lasts posts in
      let from_empty : ServesAll (committed s.env, []) all r.0 (contents lib laws r.1) =
        subst (λ q. ServesAll (committed s.env, q) all r.0 (contents lib laws r.1)) fresh served in
      let fits = received_all-AllOnDefault r.1.queue (ServesAll-QueueOnDefault from_empty tt) in
      let settled = writer_loop-replay lib.lmdb laws good (received_all r.1.queue) r.1.env fits in
      (from_empty, settled.0)
