-- ===== src/Connection/Outside.antt =====
-- The transaction of a thread: requests outside a transaction, the loop on requests, and the end of a
-- connection.
use fine_db.Prelude.{
  ℕ, zero, suc, ◌≡◌, refl, ◌∙◌, Bool, true, false, Option, none, some, Bytes, arith, inl, inr,
  Option-cases, Bool-cases,
}
use fine_db.Exec.Keeps.{Keeps}
use fine_db.Lmdb.{IsLmdb}
use fine_db.Protocol.{transaction, resp_ok}
use fine_db.Database.{database_transaction_start, database_transaction_rollback}
use fine_db.Server.{
  Libraries, State, WriterMsg, read, connection_send_ok, connection_send_error, nn_send,
}
use fine_db.Exec.{◌>>=◌}
use fine_db.Command.StartStop.{command_start, command_stop, started, stopped, set_transaction}
use fine_db.Connection.{
  on_request, serve_request, request_loop, serve_connection, connection_thread_disconnect,
}
use fine_db.Connection.Parts.{Parts, Allows}
use fine_db.Connection.Handlers.{on_request_keeps}
use fine_db.Connection.Untouched.{
  Untouched, response-Untouched, ymalloc-Untouched, strdup-Untouched, read-Untouched,
  dbname-Untouched,
}
use fine_db.Connection.Isolation.{holds_live, serve_request_isolated}

module _ (lib : Libraries) where
  -- Without a transaction there is none afterwards.
  abbrev Free : State lib → State lib → Type 0
  Free s t = s.transaction ≡ none → t.transaction ≡ none

  free : {A : Type 0} {m : State lib → A × State lib} → Keeps (Untouched lib) m → Keeps Free m
  free k = record { at = λ s outside. let same = k.at s in ground arith }

  parts : Parts lib Free
  parts = record {
    order = record {
      refl_at = λ s outside. outside;
      trans_at = λ s t v h k outside. k (h outside);
    };
    response_part =
        λ code serialized compressed x. free (response-Untouched lib code serialized compressed x);
    ymalloc_part = free (ymalloc-Untouched lib);
    strdup_part = free (strdup-Untouched lib);
    read_part = λ n. free (read-Untouched lib n);
    dbname_part = λ n. free (dbname-Untouched lib n);
    put_part = λ create_only key value s outside. outside;
    del_part = λ key s outside. outside;
    get_part = λ key s outside. outside;
  }

  nn_send-Free : (msg : WriterMsg) → Keeps Free (nn_send lib msg)
  unfolding nn_send ◌>>=◌
  nn_send-Free msg = record { at = λ s outside. ground arith }

  allows : (sync : Bool) → Allows lib Free sync
  allows true = tt
  allows false = nn_send-Free

  module _ (laws : IsLmdb lib.lmdb) where
    open laws use {committed, view}

    -- START may begin one.
    abbrev Begins : State lib → State lib → Type 0
    Begins s t = s.transaction ≡ none → holds_live lib laws t.transaction t.env ≡ true

    start-Begins :
        (sync compress serialized : Bool)
        → Keeps Begins (command_start lib sync compress serialized)
    unfolding command_start started database_transaction_start connection_send_ok
        connection_send_error
    start-Begins sync compress serialized = record {
      at = λ s outside.
          let r = lib.mdb_txn_begin true s.env in
          elim (Option-cases r.0) [
            | inl gone ↦ ground (
              arith,
              outside,
              gone,
              (response-Untouched lib transaction false false none).at
                  (set_transaction lib none r.1 s),
            )
            | inr (t, begun) ↦ ground (
              arith,
              outside,
              begun,
              laws.begin_some true s.env t,
              (response-Untouched lib resp_ok false false none).at
                  (set_transaction lib (some t) r.1 s),
            )
          ];
    }

    stop-Begins :
        (sync compress serialized : Bool) → Keeps Begins (command_stop lib sync compress serialized)
    unfolding command_stop stopped connection_send_error
    stop-Begins sync compress serialized = record {
      at = λ s outside.
          ground (arith, outside, (response-Untouched lib transaction false false none).at s);
    }

    on_request-Begins : (r : Option Bytes) (s : State lib) → Begins s (on_request lib r s).1
    on_request-Begins r s =
        on_request_keeps lib parts Begins (λ s t k outside. let now = k outside in ground arith)
          start-Begins stop-Begins r s (λ request. allows _)

    -- Whatever the client sends and whatever fails, a round of the loop on requests keeps this true: if
    -- the thread has a transaction, it is one that has not ended.
    pub serve_request-holds_live :
        (s : State lib)
        → holds_live lib laws s.transaction s.env ≡ true
        → let t = (serve_request lib s).1 in holds_live lib laws t.transaction t.env ≡ true
    unfolding serve_request
    serve_request-holds_live s alive =
        let same = (read-Untouched lib 1).at s in
        let r = read lib 1 s in
        elim (Option-cases s.transaction) [
          | inl outside ↦ on_request-Begins r.0 r.1 (same.same_txn ∙ outside)
          | inr (u, has) ↦
              unfold serve_request in (serve_request_isolated lib laws u s has (ground arith)).2
        ]

    request_loop-holds_live :
        (fuel : ℕ) (s : State lib)
        → holds_live lib laws s.transaction s.env ≡ true
        → let t = request_loop lib fuel s in holds_live lib laws t.transaction t.env ≡ true
    unfolding request_loop
    request_loop-holds_live zero s alive = alive
    request_loop-holds_live (suc fuel) s alive =
        let alive1 = serve_request-holds_live s alive in
        elim (Bool-cases (serve_request lib s).0) [
          | inl on ↦
              rw (on, request_loop) (request_loop-holds_live fuel (serve_request lib s).1 alive1)
          | inr off ↦ rw (off, request_loop) alive1
        ]

    disconnect_commits_nothing :
        (s : State lib)
        → holds_live lib laws s.transaction s.env ≡ true
        → committed (connection_thread_disconnect lib s).env ≡ committed s.env
    unfolding connection_thread_disconnect database_transaction_rollback
    disconnect_commits_nothing s alive = elim (Option-cases s.transaction) [
      | inl outside ↦ ground (arith, outside)
      | inr (u, has) ↦ ground (arith, has, laws.abort_live u s.env)
    ]

    -- For a thread that had no transaction, whatever the client sends and whatever fails, the end of
    -- the connection commits nothing: what is committed after it is what was committed when the loop
    -- on requests ended.
    pub serve_connection_rolls_back :
        (fuel fd : ℕ) (s : State lib)
        → s.transaction ≡ none
        → let begun : State lib = record s {
          thread = record s.thread { fd = some fd };
          buff = lib.ydynabin_new;
        } in
          committed (serve_connection lib fuel fd s).env
          ≡ committed (request_loop lib fuel begun).env
    unfolding serve_connection
    serve_connection_rolls_back fuel fd s outside =
        disconnect_commits_nothing _ (request_loop-holds_live fuel _ (rw outside refl))
