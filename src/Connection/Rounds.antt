-- ===== src/Connection/Rounds.antt =====
-- How the loop on a connection's requests ends, and how it leaves the thread.
use fine_db.Prelude.{
  ℕ, zero, suc, refl, ◌≤◌, ◌<◌, ◌≡◌, ◌≢◌, Bool, true, false, Option, none, some, Bytes, arith, inl,
  inr, Bool-cases, ap, length,
}
use fine_db.Exec.{◌>>=◌}
use fine_db.Exec.Keeps.{Keeps}
use fine_db.Lmdb.{Name}
use fine_db.Dynabin.{IsDynabin}
use fine_db.Protocol.{transaction}
use fine_db.Socket.Read.{volume}
use fine_db.Server.{Libraries, State, read}
use fine_db.Server.Sending.{stored}
use fine_db.Server.Supply.{
  Kept, Kept-order, supply, error-Kept, ok-Kept, response-Kept, ymalloc-Kept, strdup-Kept,
  read-Kept, nn_send-Kept, read-supply,
}
use fine_db.Command.Setdb.{set_dbname}
use fine_db.Command.StartStop.{command_start, command_stop, started, stopped}
use fine_db.Connection.{
  on_request, serve_request, request_loop, serve_connection, connection_thread_disconnect,
}
use fine_db.Connection.Parts.{Parts, Allows}
use fine_db.Connection.Handlers.{on_request_keeps}

-- Only a request that was read goes on.
reads_first :
    {lib : Libraries} (r : Option Bytes) (s : State lib) → (on_request lib r s).0 ≡ true → r ≢ none
unfolding on_request
reads_first none s h = absurd (cc)
reads_first (some xs) s h = λ e. cc

module _ (lib : Libraries) (doc : IsDynabin lib.dynabin) where
  set_dbname-Kept : (n : Name) → Keeps (Kept lib) (set_dbname lib n)
  unfolding set_dbname ◌>>=◌
  set_dbname-Kept n = record { at = λ s. record { same_fd = refl; no_more = omega arith } }

  -- A change of the environment alone.
  stored-Kept : (s : State lib) (e : lib.Env) → Kept lib s (stored lib s e)
  stored-Kept s e = record { same_fd = refl; no_more = omega arith }

  parts : Parts lib (Kept lib)
  parts = record {
    order = Kept-order lib;
    response_part = response-Kept lib;
    ymalloc_part = ymalloc-Kept lib;
    strdup_part = strdup-Kept lib;
    read_part = read-Kept lib doc;
    dbname_part = set_dbname-Kept;
    put_part = λ create_only key value s. stored-Kept s _;
    del_part = λ key s. stored-Kept s _;
    get_part = λ key s. stored-Kept s _;
  }

  started-Kept : (o : Option lib.Txn) → Keeps (Kept lib) (started lib o)
  unfolding started
  started-Kept none = record { at = (error-Kept lib transaction).at }
  started-Kept (some t) = record { at = (ok-Kept lib).at }

  start-Kept :
      (sync compress serialized : Bool)
      → Keeps (Kept lib) (command_start lib sync compress serialized)
  unfolding command_start
  start-Kept sync compress serialized = record {
    at = λ s.
        (Kept-order lib).trans_at s _ _ (record { same_fd = refl; no_more = omega arith })
          ((started-Kept _).at _);
  }

  stopped-Kept : (o : Option lib.Txn) → Keeps (Kept lib) (stopped lib o)
  unfolding stopped
  stopped-Kept none = record { at = (error-Kept lib transaction).at }
  stopped-Kept (some t) = record {
    at = λ s.
        (Kept-order lib).trans_at s _ _ (record { same_fd = refl; no_more = omega arith })
          ((ok-Kept lib).at _);
  }

  stop-Kept :
      (sync compress serialized : Bool)
      → Keeps (Kept lib) (command_stop lib sync compress serialized)
  unfolding command_stop
  stop-Kept sync compress serialized = record { at = λ s. (stopped-Kept s.transaction).at s }

  allows : (sync : Bool) → Allows lib (Kept lib) sync
  allows true = tt
  allows false = nn_send-Kept lib

  on_request-Kept :
      (r : Option Bytes) (s : State lib)
      → Kept lib s (on_request lib r s).1 × ((on_request lib r s).0 ≡ true → r ≢ none)
  on_request-Kept r s = (
    on_request_keeps lib parts (Kept lib) (λ s t k. k) start-Kept stop-Kept r s
        (λ request. allows _),
    reads_first r s,
  )

  -- A round that goes on to the next request has read at least the byte of its own.
  pub serve_request-supply :
      (s : State lib)
      → Kept lib s (serve_request lib s).1
        × ((serve_request lib s).0 ≡ true → supply lib (serve_request lib s).1 < supply lib s)
  unfolding serve_request
  serve_request-supply s =
      let r = read lib 1 s in
      let (k, used) = read-supply lib doc 1 s in
      let (k', some_read) = on_request-Kept r.0 r.1 in
      ((Kept-order lib).trans_at s r.1 _ k k', λ h. omega (arith, used (some_read h), k'.no_more))

  -- The loop on requests ends by itself: once the fuel exceeds the number of bytes in the buffer
  -- and of those that may still arrive, more fuel makes no difference.
  pub request_loop_enough :
      (fuel more : ℕ) (s : State lib)
      → supply lib s < fuel
      → fuel ≤ more
      → request_loop lib fuel s ≡ request_loop lib more s
  unfolding request_loop
  request_loop_enough zero more s h k = absurd (omega arith)
  request_loop_enough (suc fuel) zero s h k = absurd (omega arith)
  request_loop_enough (suc fuel) (suc more) s h k = elim (Bool-cases (serve_request lib s).0) [
    | inl on ↦
        let less = (serve_request-supply s).1 on in
        rw (on, request_loop)
          (request_loop_enough fuel more (serve_request lib s).1 (omega arith) (omega arith))
    | inr off ↦ rw (off, request_loop)
  ]

  request_loop-Kept : (fuel : ℕ) (s : State lib) → Kept lib s (request_loop lib fuel s)
  unfolding request_loop
  request_loop-Kept zero s = (Kept-order lib).refl_at s
  request_loop-Kept (suc fuel) s = elim (Bool-cases (serve_request lib s).0) [
    | inl on ↦
        rw (on, request_loop)
          ((Kept-order lib).trans_at s _ _ (serve_request-supply s).0 (request_loop-Kept fuel _))
    | inr off ↦ rw (off, request_loop) (serve_request-supply s).0
  ]

  pub serve_connection_idle :
      (fuel fd : ℕ) (s : State lib)
      → (serve_connection lib fuel fd s).thread
        ≡ record { fd = none; dbname = none; transaction = none }
  unfolding serve_connection
  serve_connection_idle fuel fd s =
      let kept =
        request_loop-Kept fuel
          (record s { thread = record s.thread { fd = some fd }; buff = lib.ydynabin_new }) in
      ground (arith, kept.same_fd)

  -- Whatever the client sends and whatever fails, once the fuel exceeds the number of bytes that
  -- may arrive, a connection is served to its end, more fuel making no difference; and then the
  -- thread has no socket, no database name and no transaction, as before its first connection.
  pub serve_connection_ends :
      (fuel more fd : ℕ) (s : State lib)
      → volume s.recvs < fuel
      → fuel ≤ more
      → (serve_connection lib fuel fd s ≡ serve_connection lib more fd s)
        × ((serve_connection lib fuel fd s).thread
            ≡ record { fd = none; dbname = none; transaction = none })
  unfolding serve_connection
  serve_connection_ends fuel more fd s h k =
      let begun : State lib = record s {
        thread = record s.thread { fd = some fd };
        buff = lib.ydynabin_new;
      } in
      (
        ap (connection_thread_disconnect lib)
            (request_loop_enough fuel more begun (omega (arith, ap length doc.bytes-new)) k),
        serve_connection_idle fuel fd s,
      )
