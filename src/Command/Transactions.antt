-- ===== src/Command/Transactions.antt =====
-- What START and STOP do to the thread's transaction.
use fine_db.Prelude.{◌++◌, Option, ◌+◌, ◌≡◌, Bool, true, false, none, some, arith}
use fine_db.Yerr.{yeaccess, yenoerr}
use fine_db.Lmdb.{is_live, IsLmdb, is_live}
use fine_db.Protocol.{transaction, resp_ok}
use fine_db.Database.{database_transaction_rollback, database_transaction_start}
use fine_db.Server.{Libraries, State, connection_send_error}
use fine_db.Server.Sending.{IsHealthy, replied, response, send_ok-healthy, send_response-healthy}
use fine_db.Command.StartStop.{command_stop, stopped, command_start, set_transaction, started}

module _ (lib : Libraries) where
  moved-IsHealthy :
      {s : State lib} (t : Option lib.Txn) (e : lib.Env)
      → IsHealthy lib s
      → IsHealthy lib (set_transaction lib t e s)
  moved-IsHealthy t e h = record { connected = h.connected; memory = h.memory; line = h.line }

  -- A STOP without a transaction is answered by RESP_ERR_TRANSACTION, changes nothing else and ends
  -- the connection.
  pub command_stop-refused :
      (sync compress serialized : Bool) (s : State lib)
      → IsHealthy lib s
      → s.transaction ≡ none
      → command_stop lib sync compress serialized s
        ≡ (yeaccess, replied lib s (response lib transaction false false none))
  unfolding command_stop stopped connection_send_error
  command_stop-refused sync compress serialized s h fresh =
      ground (arith, send_response-healthy lib transaction false false none s h)

module _ (lib : Libraries) (doc : IsLmdb lib.lmdb) where
  open doc use {committed, view, open_txns}

  -- On a connection whose transmissions succeed, a START of a thread without a transaction, where
  -- LMDB begins one, is answered by RESP_OK; the thread has then a transaction that is read-only
  -- and sees what is committed, and nothing is committed.
  pub command_start-begins :
      (sync compress serialized : Bool) (t : lib.Txn) (s : State lib)
      → IsHealthy lib s
      → s.transaction ≡ none
      → (lib.mdb_txn_begin true s.env).0 ≡ some t
      → let r = command_start lib sync compress serialized s in
        (r ≡ (
          yenoerr,
          replied lib
              (set_transaction lib (some t) (lib.mdb_txn_begin true s.env).1 s)
              (response lib resp_ok false false none),
        ))
        × (view r.1.env t ≡ some (record { readonly = true; store = committed s.env }))
        × (committed r.1.env ≡ committed s.env)
        × (open_txns r.1.env ≡ open_txns s.env + 1)
  unfolding command_start started database_transaction_start
  command_start-begins sync compress serialized t s h fresh begun =
      let e1 = (lib.mdb_txn_begin true s.env).1 in
      let s1 = set_transaction lib (some t) e1 s in
      let h1 = moved-IsHealthy lib (some t) e1 h in
      ground (arith, send_ok-healthy lib s1 h1, doc.begin_some true s.env t)

  -- On a connection whose transmissions succeed, a START in a transaction that has not ended,
  -- where LMDB begins another, is answered by RESP_OK and leaves the thread with the new one; the
  -- old one is rolled back, so that no more transactions are open than before, and nothing is
  -- committed.
  pub command_start-replaces :
      (sync compress serialized : Bool) (t u : lib.Txn) (s : State lib)
      → IsHealthy lib s
      → s.transaction ≡ some t
      → is_live (view s.env t) ≡ true
      → (lib.mdb_txn_begin true (lib.mdb_txn_abort t s.env)).0 ≡ some u
      → let r = command_start lib sync compress serialized s in
        (r.0 ≡ yenoerr)
        × (r.1.transaction ≡ some u)
        × (r.1.sent ≡ s.sent ++ response lib resp_ok false false none)
        × (committed r.1.env ≡ committed s.env)
        × (open_txns r.1.env ≡ open_txns s.env)
  unfolding command_start started database_transaction_start database_transaction_rollback
  command_start-replaces sync compress serialized t u s h had alive begun =
      let e1 = lib.mdb_txn_abort t s.env in
      let s1 = set_transaction lib (some u) (lib.mdb_txn_begin true e1).1 s in
      let h1 = moved-IsHealthy lib (some u) (lib.mdb_txn_begin true e1).1 h in
      ground (arith, send_ok-healthy lib s1 h1, doc.abort_live t s.env, doc.begin_some true e1 u)

  -- On a connection whose transmissions succeed, a STOP in a transaction that has not ended rolls
  -- it back, commits nothing and leaves the thread without a transaction; it is answered by
  -- RESP_OK.
  pub command_stop-ends :
      (sync compress serialized : Bool) (t : lib.Txn) (s : State lib)
      → IsHealthy lib s
      → s.transaction ≡ some t
      → is_live (view s.env t) ≡ true
      → let r = command_stop lib sync compress serialized s in
        (r ≡ (
          yenoerr,
          replied lib
              (set_transaction lib none (lib.mdb_txn_abort t s.env) s)
              (response lib resp_ok false false none),
        ))
        × (view r.1.env t ≡ none)
        × (committed r.1.env ≡ committed s.env)
        × (open_txns r.1.env + 1 ≡ open_txns s.env)
  unfolding command_stop stopped database_transaction_rollback
  command_stop-ends sync compress serialized t s h had alive =
      let s1 = set_transaction lib none (lib.mdb_txn_abort t s.env) s in
      let h1 = moved-IsHealthy lib none (lib.mdb_txn_abort t s.env) h in
      ground (arith, send_ok-healthy lib s1 h1, doc.abort_live t s.env)
