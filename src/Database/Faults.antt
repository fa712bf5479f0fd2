-- ===== src/Database/Faults.antt =====
-- The path on which database_put and database_del end one transaction twice.
use fine_db.Prelude.{◌≡◌, Bool, true, false, none, some, Bytes, arith}
use fine_db.Yerr.{yeaccess}
use fine_db.Lmdb.{Lmdb, IsLmdb, Name}
use fine_db.Database.{database_put}

module _ (l : Lmdb) (doc : IsLmdb l) where
  open l use {
    Env, Txn, Dbi, mdb_txn_begin, mdb_txn_commit, mdb_txn_abort, mdb_dbi_open, mdb_dbi_close,
    mdb_put,
  }
  open doc use {view}

  -- Whenever database_put, outside a transaction, has written the data and the commit fails, it
  -- calls mdb_txn_abort on a transaction whose handle the commit has freed.
  pub put_aborts_freed :
      (create_only : Bool) (n : Name) (k x : Bytes) (e e1 e2 e3 e4 : Env) (t : Txn) (d : Dbi)
      → mdb_txn_begin false e ≡ (some t, e1)
      → mdb_dbi_open t n true e1 ≡ (some d, e2)
      → mdb_put t d create_only k x e2 ≡ (true, e3)
      → mdb_txn_commit t (mdb_dbi_close d e3) ≡ (false, e4)
      → (database_put l none create_only n k x e ≡ (yeaccess, mdb_txn_abort t e4))
        × (view e4 t ≡ none)
  unfolding database_put
  put_aborts_freed create_only n k x e e1 e2 e3 e4 t d begun opened done lost = ground (
    arith,
    doc.begin_some false e t,
    doc.open_keeps t n true e1,
    doc.put_keeps t d create_only k x e2,
    doc.close_live d e3 t,
    doc.commit_ends t (mdb_dbi_close d e3),
  )
