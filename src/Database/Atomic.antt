-- ===== src/Database/Atomic.antt =====
-- database_put and database_del outside a transaction: what is committed, and which transactions are left.
use fine_db.Prelude.{
  ◌⊎◌, ◌+◌, ◌≡◌, ◌≢◌, Bool, true, false, Option, none, some, Bytes, arith, inl, inr, Option-cases,
}
use fine_db.Yerr.{yenoerr, yeaccess}
use fine_db.Lmdb.{Lmdb, IsLmdb, View, Name, Store, insert, is_live}
use fine_db.Database.{on_put, database_put, end_of_process, code_of}

module _ (l : Lmdb) (doc : IsLmdb l) where
  open l use {
    Env, Txn, Dbi, mdb_txn_begin, mdb_txn_commit, mdb_txn_abort, mdb_dbi_open, mdb_dbi_close,
    mdb_put,
  }
  open doc use {committed, view, db_name, open_txns}

  -- The function began a transaction in `e` and ended it in `e'`, with `s` committed.
  abbrev Ended : Env → Env → Store → Type 0
  Ended e e' s = (committed e' ≡ s) × (open_txns e' + 1 ≡ open_txns e)

  -- No commit of a transaction that is open fails.
  abbrev pub CommitsSucceed : Type 0
  CommitsSucceed = (t : Txn) (e : Env) → is_live (view e t) ≡ true → (mdb_txn_commit t e).0 ≡ true

  pub commit_end :
      (t : Txn) (e : Env) (v : View)
      → view e t ≡ some v
      → v.readonly ≡ false
      → (end_of_process l none t yenoerr e).0 ≡ yenoerr
      → Ended e (end_of_process l none t yenoerr e).1 v.store
  unfolding end_of_process
  commit_end t e v h w r = ground (arith, doc.commit_true t e v, doc.commit_ends t e)

  -- At the end of a function that failed, the rollback.
  pub failed_end :
      (t : Txn) (e : Env)
      → is_live (view e t) ≡ true
      → Ended e (end_of_process l none t yeaccess e).1 (committed e)
  unfolding end_of_process
  failed_end t e h = ground (arith, doc.abort_live t e)

  -- With commits that succeed, the end of a function ends its transaction, and fails only if the
  -- function had failed.
  pub any_end :
      CommitsSucceed
      → (t : Txn) (done : Bool) (e : Env) → is_live (view e t) ≡ true
      → let r = end_of_process l none t (code_of l done) e in
        (open_txns r.1 + 1 ≡ open_txns e) × (r.0 ≢ yenoerr → committed r.1 ≡ committed e)
  unfolding end_of_process
  any_end good t true e h = ground (arith, good t e, doc.commit_ends t e)
  any_end good t false e h = ground (arith, doc.abort_live t e)

  put_success :
      (t : Txn) (create_only : Bool) (k x : Bytes) (d : Dbi) (e : Env) (v : View)
      → view e t ≡ some v
      → db_name e d ≡ some none
      → (on_put l none t create_only k x (some d, e)).0 ≡ yenoerr
      → Ended e (on_put l none t create_only k x (some d, e)).1 (insert none k x v.store)
        × (create_only ≡ true → v.store none k ≡ none)
  unfolding on_put
  put_success t create_only k x d e v h n r = ground (
    arith,
    doc.put_true t d create_only k x e v none,
    doc.put_keeps t d create_only k x e,
    doc.close_keeps d (mdb_put t d create_only k x e).1,
    doc.close_main d (mdb_put t d create_only k x e).1 t,
    commit_end t (mdb_dbi_close d (mdb_put t d create_only k x e).1)
        (record v { store = insert none k x v.store }),
  )

  put_end :
      CommitsSucceed
      → (t : Txn) (create_only : Bool) (k x : Bytes) (o : Option Dbi) (e : Env)
      → is_live (view e t) ≡ true
      → let r = on_put l none t create_only k x (o, e) in
        (open_txns r.1 + 1 ≡ open_txns e) × (r.0 ≢ yenoerr → committed r.1 ≡ committed e)
  unfolding on_put
  put_end good t create_only k x none e h = any_end good t false e h
  put_end good t create_only k x (some d) e h = ground (
    arith,
    doc.put_keeps t d create_only k x e,
    doc.close_keeps d (mdb_put t d create_only k x e).1,
    doc.close_live d (mdb_put t d create_only k x e).1 t,
    any_end good t (mdb_put t d create_only k x e).0
        (mdb_dbi_close d (mdb_put t d create_only k x e).1),
  )

  -- What database_put reports as done, outside a transaction and in the default database, is
  -- committed and nothing else is changed; with create_only the key was not there; and the
  -- transaction that it began has ended.
  pub database_put-committed :
      (create_only : Bool) (k x : Bytes) (e : Env)
      → (database_put l none create_only none k x e).0 ≡ yenoerr
      → let e' = (database_put l none create_only none k x e).1 in
        (committed e' ≡ insert none k x (committed e))
        × (open_txns e' ≡ open_txns e)
        × ((create_only ≡ false) ⊎ (committed e none k ≡ none))
  unfolding database_put
  database_put-committed create_only k x e r = elim (Option-cases (mdb_txn_begin false e).0) [
    | inl gone ↦ ground arith
    | inr (t, begun) ↦
        let e1 = (mdb_txn_begin false e).1 in
        elim (Option-cases (mdb_dbi_open t none true e1).0) [
          | inl shut ↦ absurd (ground arith)
          | inr (d, opened) ↦ ground (
            arith,
            doc.begin_some false e t,
            doc.open_keeps t none true e1,
            doc.open_default t true e1,
            doc.open_some t none true e1 d,
            put_success t create_only k x d (mdb_dbi_open t none true e1).1
                (record { readonly = false; store = committed e }),
          )
        ]
  ]

  -- Where commits succeed, database_put outside a transaction leaves no transaction open, and if it
  -- reports an error it has committed nothing: in every database and on every path.
  pub database_put_fails :
      CommitsSucceed
      → (create_only : Bool) (n : Name) (k x : Bytes) (e : Env)
      → let r = database_put l none create_only n k x e in
        (open_txns r.1 ≡ open_txns e) × ((r.0 ≡ yenoerr) ⊎ (committed r.1 ≡ committed e))
  unfolding database_put
  database_put_fails good create_only n k x e = elim (Option-cases (mdb_txn_begin false e).0) [
    | inl gone ↦ ground (arith, doc.begin_none false e)
    | inr (t, begun) ↦
        let e1 = (mdb_txn_begin false e).1 in
        ground (
          arith,
          doc.begin_some false e t,
          doc.open_keeps t n true e1,
          put_end good t create_only k x (mdb_dbi_open t n true e1).0 (mdb_dbi_open t n true e1).1,
        )
  ]
