-- ===== src/Connection/Isolation.antt =====
-- Requests in a transaction: the committed data, the queue, and the transaction itself.
use fine_db.Prelude.{
  ◌≡◌, Bool, true, false, Option, none, some, Bytes, arith, inl, inr, Option-cases,
}
use fine_db.Exec.Keeps.{Keeps}
use fine_db.Lmdb.{IsLmdb, is_live}
use fine_db.Protocol.{resp_ok, transaction}
use fine_db.Database.{database_transaction_start, database_transaction_rollback}
use fine_db.Database.Inside.{Inside, database_put-Inside, database_del-Inside, database_get-Inside}
use fine_db.Server.{Libraries, State, read, connection_send_ok, connection_send_error}
use fine_db.Command.StartStop.{command_start, command_stop, started, stopped, set_transaction}
use fine_db.Connection.{on_request, serve_request, is_some}
use fine_db.Connection.Parts.{Parts}
use fine_db.Connection.Handlers.{on_request_keeps}
use fine_db.Connection.Untouched.{
  Untouched, response-Untouched, ymalloc-Untouched, strdup-Untouched, read-Untouched,
  dbname-Untouched,
}

module _ (lib : Libraries) (laws : IsLmdb lib.lmdb) where
  open laws use {committed, view}

  -- The thread's transaction, if it has one, has not ended.
  abbrev pub holds_live : Option lib.Txn → lib.Env → Bool
  holds_live none e = true
  holds_live (some t) e = is_live (view e t)

  -- With this transaction nothing is committed, no message is sent, and the transaction goes on.
  abbrev Isolated : lib.Txn → State lib → State lib → Type 0
  Isolated u s t =
      s.transaction ≡ some u
      → (t.transaction ≡ some u) × Inside lib.lmdb laws u s.env t.env × (t.queue ≡ s.queue)

  module _ (u : lib.Txn) where
    isolated :
        {A : Type 0} {m : State lib → A × State lib}
        → Keeps (Untouched lib) m
        → Keeps (Isolated u) m
    isolated k = record { at = λ s has. let same = k.at s in ground arith }

    parts : Parts lib (Isolated u)
    parts = record {
      order = record {
        refl_at = λ s has. ground arith;
        trans_at = λ s t v h k has. let first = h has in let second = k first.0 in ground arith;
      };
      response_part = λ code serialized compressed x.
          isolated (response-Untouched lib code serialized compressed x);
      ymalloc_part = isolated (ymalloc-Untouched lib);
      strdup_part = isolated (strdup-Untouched lib);
      read_part = λ n. isolated (read-Untouched lib n);
      dbname_part = λ n. isolated (dbname-Untouched lib n);
      put_part = λ create_only key value s has.
          ground (arith, database_put-Inside lib.lmdb laws u create_only s.dbname key value s.env);
      del_part =
          λ key s has. ground (arith, database_del-Inside lib.lmdb laws u s.dbname key s.env);
      get_part = λ key s has.
          ground (arith, database_get-Inside lib.lmdb laws s.unset u s.dbname key s.env);
    }

    -- What a whole request does: START and STOP end the transaction.
    abbrev Ends : State lib → State lib → Type 0
    Ends s t =
        s.transaction ≡ some u
        → is_live (view s.env u) ≡ true
        → (committed t.env ≡ committed s.env)
          × (t.queue ≡ s.queue)
          × (holds_live t.transaction t.env ≡ true)

    start-Ends :
        (sync compress serialized : Bool) → Keeps Ends (command_start lib sync compress serialized)
    unfolding command_start started database_transaction_start database_transaction_rollback
        connection_send_ok connection_send_error
    start-Ends sync compress serialized = record {
      at = λ s has alive.
          let e1 = lib.mdb_txn_abort u s.env in
          let r = lib.mdb_txn_begin true e1 in
          elim (Option-cases r.0) [
            | inl gone ↦ ground (
              arith,
              has,
              gone,
              laws.abort_live u s.env,
              laws.begin_none true e1,
              (response-Untouched lib transaction false false none).at
                  (set_transaction lib none r.1 s),
            )
            | inr (t, begun) ↦ ground (
              arith,
              has,
              begun,
              laws.abort_live u s.env,
              laws.begin_some true e1 t,
              (response-Untouched lib resp_ok false false none).at
                  (set_transaction lib (some t) r.1 s),
            )
          ];
    }

    stop-Ends :
        (sync compress serialized : Bool) → Keeps Ends (command_stop lib sync compress serialized)
    unfolding command_stop stopped database_transaction_rollback connection_send_ok
    stop-Ends sync compress serialized = record {
      at = λ s has alive.
          let s1 = set_transaction lib none (lib.mdb_txn_abort u s.env) s in
          ground (
            arith,
            has,
            laws.abort_live u s.env,
            (response-Untouched lib resp_ok false false none).at s1,
          );
    }

    on_request-Ends : (r : Option Bytes) (s : State lib) → Ends s (on_request lib r s).1
    unfolding is_some
    on_request-Ends r s has =
        on_request_keeps lib parts Ends (λ s t k had alive. let now = k had in ground arith)
          start-Ends stop-Ends r s (λ request. rw has tt) has

  -- Whatever the client sends and whatever fails, a request to a thread with a transaction that has
  -- not ended commits nothing and sends the writer thread nothing; and if the thread has a
  -- transaction afterwards, that has not ended either.
  pub serve_request_isolated :
      (u : lib.Txn) (s : State lib)
      → s.transaction ≡ some u
      → is_live (view s.env u) ≡ true
      → let t = (serve_request lib s).1 in
        (committed t.env ≡ committed s.env)
        × (t.queue ≡ s.queue)
        × (holds_live t.transaction t.env ≡ true)
  unfolding serve_request
  serve_request_isolated u s has alive =
      let r = read lib 1 s in
      let same = (read-Untouched lib 1).at s in ground (arith, on_request-Ends u r.0 r.1)
