-- ===== src/Service/Interleaving.antt =====
-- The rounds of a connection thread, beside the steps of the system in which all threads work at the
-- same time: what each request does to that system.
use fine_db.Prelude.{
  ◌≡◌, sym, ◌∙◌, ℕ, update_self, inl, inr, Option-cases, false, none, [], ◌∷◌, ◌++◌, Bytes, arith,
}
use fine_db.Lmdb.{IsLmdb}
use fine_db.Dynabin.{IsDynabin, HasMemory}
use fine_db.Snappy.{IsSnappy}
use fine_db.Database.Read.{database_get-Tells}
use fine_db.Server.{Libraries, State, WriterMsg, write_put, write_del}
use fine_db.Server.Reading.{unread}
use fine_db.Writer.{writer_step}
use fine_db.Writer.Interleaved.{
  System, posted, changed, looked, send_msg, change_now, read_now, Reachable, next,
}
use fine_db.Connection.{serve_request}
use fine_db.Client.Serving.{
  serve_request-put, serve_request-get, serve_request-del, serve_request-ping,
  serve_request-get_missing, serve_request-get_failed,
}
use fine_db.Client.Queued.{serve_request-put_async, serve_request-del_async}
use fine_db.Service.{
  Request, ping_server, put_data, put_async, get_data, del_data, del_async, encode, Fits,
}
use fine_db.Service.Plain.{IsPlain}

module _ (lib : Libraries) where
  -- A thread at work on what all threads share, with its own pipe to the writer thread.
  abbrev pub enter : ℕ → System lib.lmdb → State lib → State lib
  enter i y s = record s { env = y.env; queue = y.pipes i }

  -- What a request of the client library does to the system, on connection thread `i`.
  abbrev pub performed : ℕ → lib.Dbi → Request → System lib.lmdb → System lib.lmdb
  performed i unset ping_server y = y
  performed i unset (put_data key z) y = changed lib.lmdb (write_put none key z false) y
  performed i unset (put_async key z) y = posted lib.lmdb i (write_put none key z false) y
  performed i unset (get_data key) y = looked lib.lmdb unset none key y
  performed i unset (del_data key) y = changed lib.lmdb (write_del none key) y
  performed i unset (del_async key) y = posted lib.lmdb i (write_del none key) y

  performed-Reachable :
      (i : ℕ) (unset : lib.Dbi) (e : lib.Env) (r : Request) (y : System lib.lmdb)
      → Reachable lib.lmdb e y
      → Reachable lib.lmdb e (performed i unset r y)
  performed-Reachable i unset e ping_server y run = run
  performed-Reachable i unset e (put_data key z) y run =
      next run (change_now y (write_put none key z false) tt)
  performed-Reachable i unset e (put_async key z) y run =
      next run (send_msg y i (write_put none key z false) tt)
  performed-Reachable i unset e (get_data key) y run = next run (read_now y unset none key)
  performed-Reachable i unset e (del_data key) y run =
      next run (change_now y (write_del none key) tt)
  performed-Reachable i unset e (del_async key) y run =
      next run (send_msg y i (write_del none key) tt)

  -- A thread's state holds what the system has for it.
  abbrev Holds : ℕ → System lib.lmdb → State lib → Type 0
  Holds i y s = (s.env ≡ y.env) × (s.queue ≡ y.pipes i)

  -- After a message was sent.
  posted-Holds :
      (i : ℕ) (msg : WriterMsg) (y : System lib.lmdb) (s : State lib)
      → s.env ≡ y.env
      → s.queue ≡ y.pipes i ++ msg ∷ []
      → Holds i (posted lib.lmdb i msg y) s
  posted-Holds i msg y s same sent =
      (same, sent ∙ sym (update_self i (y.pipes i ++ msg ∷ []) y.pipes))

  module _ (laws : IsLmdb lib.lmdb) (doc : IsDynabin lib.dynabin)
      (memory : HasMemory lib.dynabin) where
    put-performed :
        (i : ℕ) (key z rest : Bytes) (y : System lib.lmdb) (s : State lib)
        → Fits (put_data key z)
        → IsPlain lib laws (enter i y s)
        → unread lib s ≡ encode (put_data key z) ++ rest
        → Holds i (performed i s.unset (put_data key z) y) (serve_request lib (enter i y s)).1
    unfolding writer_step
    put-performed i key z rest y s fits p front =
        let (b, rs, ran, left) =
          serve_request-put lib doc memory key z rest (enter i y s) p.healthy fits.0 fits.1 front in
        (ground (arith, ran, p.outside, p.default), ground (arith, ran))

    del-performed :
        (i : ℕ) (key rest : Bytes) (y : System lib.lmdb) (s : State lib)
        → Fits (del_data key)
        → IsPlain lib laws (enter i y s)
        → unread lib s ≡ encode (del_data key) ++ rest
        → Holds i (performed i s.unset (del_data key) y) (serve_request lib (enter i y s)).1
    unfolding writer_step
    del-performed i key rest y s fits p front =
        let (b, rs, ran, left) =
          serve_request-del lib doc memory key rest (enter i y s) p.healthy fits front in
        (ground (arith, ran, p.outside, p.default), ground (arith, ran))

    put_async-performed :
        (i : ℕ) (key z rest : Bytes) (y : System lib.lmdb) (s : State lib)
        → Fits (put_async key z)
        → IsPlain lib laws (enter i y s)
        → unread lib s ≡ encode (put_async key z) ++ rest
        → Holds i (performed i s.unset (put_async key z) y) (serve_request lib (enter i y s)).1
    put_async-performed i key z rest y s fits p front =
        let (b, rs, ran, left) =
          serve_request-put_async lib doc memory key z rest (enter i y s) p.healthy p.outside
            p.posts fits.0 fits.1 front in
        posted-Holds i (write_put none key z false) y (serve_request lib (enter i y s)).1
          (ground (arith, ran)) (ground (arith, ran, p.default))

    del_async-performed :
        (i : ℕ) (key rest : Bytes) (y : System lib.lmdb) (s : State lib)
        → Fits (del_async key)
        → IsPlain lib laws (enter i y s)
        → unread lib s ≡ encode (del_async key) ++ rest
        → Holds i (performed i s.unset (del_async key) y) (serve_request lib (enter i y s)).1
    del_async-performed i key rest y s fits p front =
        let (b, rs, ran, left) =
          serve_request-del_async lib doc memory key rest (enter i y s) p.healthy p.outside p.posts
            fits front in
        posted-Holds i (write_del none key) y (serve_request lib (enter i y s)).1
          (ground (arith, ran)) (ground (arith, ran, p.default))

    get-performed :
        IsSnappy lib.snappy
        → (i : ℕ) (key rest : Bytes) (y : System lib.lmdb) (s : State lib) → Fits (get_data key)
        → IsPlain lib laws (enter i y s)
        → unread lib s ≡ encode (get_data key) ++ rest
        → Holds i (performed i s.unset (get_data key) y) (serve_request lib (enter i y s)).1
    get-performed zip i key rest y s fits p front =
        let told = database_get-Tells lib.lmdb laws s.unset none key y.env in
        elim told [
          | inl same ↦ elim (Option-cases (laws.committed y.env none key)) [
            | inl missing ↦
                let (b, rs, ran, left) =
                  serve_request-get_missing lib doc memory key rest (enter i y s) p.healthy fits
                    front (ground (arith, same, missing, p.outside, p.default)) in
                (ground (arith, ran, p.outside, p.default), ground (arith, ran))
            | inr (z, there) ↦
                let (b, rs, ran, left) =
                  serve_request-get lib doc memory zip key z rest (enter i y s) p.healthy fits front
                    (ground (arith, same, there, p.outside, p.default)) in
                (ground (arith, ran, p.outside, p.default), ground (arith, ran))
          ]
          | inr failed ↦
              let (b, rs, ran) =
                serve_request-get_failed lib doc memory key rest (enter i y s) p.healthy fits front
                  (ground (arith, failed, p.outside, p.default)) in
              (ground (arith, ran, p.outside, p.default), ground (arith, ran))
        ]

    ping-performed :
        (i : ℕ) (rest : Bytes) (y : System lib.lmdb) (s : State lib)
        → IsPlain lib laws (enter i y s)
        → unread lib s ≡ encode ping_server ++ rest
        → Holds i y (serve_request lib (enter i y s)).1
    ping-performed i rest y s p front =
        let (b, rs, ran, left) =
          serve_request-ping lib doc memory rest (enter i y s) p.healthy front in
        (ground (arith, ran), ground (arith, ran))

    request-performed :
        IsSnappy lib.snappy
        → (i : ℕ) (r : Request) (rest : Bytes) (y : System lib.lmdb) (s : State lib) → Fits r
        → IsPlain lib laws (enter i y s)
        → unread lib s ≡ encode r ++ rest
        → Holds i (performed i s.unset r y) (serve_request lib (enter i y s)).1
    request-performed zip i ping_server rest y s fits p front = ping-performed i rest y s p front
    request-performed zip i (put_data key z) rest y s fits p front =
        put-performed i key z rest y s fits p front
    request-performed zip i (put_async key z) rest y s fits p front =
        put_async-performed i key z rest y s fits p front
    request-performed zip i (get_data key) rest y s fits p front =
        get-performed zip i key rest y s fits p front
    request-performed zip i (del_data key) rest y s fits p front =
        del-performed i key rest y s fits p front
    request-performed zip i (del_async key) rest y s fits p front =
        del_async-performed i key rest y s fits p front

    -- When the system is at a state that its threads reach, and connection thread `i`, outside of a
    -- transaction, in the default database, without failures of memory, transmission or the queue, finds a
    -- whole ping, put, get or delete request in what it reads next (an asynchronous one included), then
    -- its round does to the environment and to the thread's pipe exactly what `performed` says of that request,
    -- once: nothing, the change of its key, the message with its key and data behind those in the pipe,
    -- or the read of its key; and the threads also reach the system after that, so that whatever holds of the
    -- interleaved system holds between the rounds of its handlers.
    pub serve_request-Reachable :
        IsSnappy lib.snappy
        → (e : lib.Env) (i : ℕ) (r : Request) (rest : Bytes) (y : System lib.lmdb) (s : State lib)
        → Reachable lib.lmdb e y
        → Fits r
        → IsPlain lib laws (enter i y s)
        → unread lib s ≡ encode r ++ rest
        → let s' = (serve_request lib (enter i y s)).1 in
          let y' = performed i s.unset r y in
          Reachable lib.lmdb e y' × (s'.env ≡ y'.env) × (s'.queue ≡ y'.pipes i)
    serve_request-Reachable zip e i r rest y s run fits p front =
        let (same_env, same_queue) = request-performed zip i r rest y s fits p front in
        (performed-Reachable i s.unset e r y run, same_env, same_queue)
