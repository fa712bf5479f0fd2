-- ===== src/Lmdb/Snapshot.antt =====
-- A transaction of LMDB that has begun and in which nothing was called, while other transactions come
-- and go.
use fine_db.Prelude.{◌≡◌, ◌≢◌, Bool, true, none, some, Bytes}
use fine_db.Lmdb.{Lmdb, IsLmdb, View, Name, is_live}

module _ (l : Lmdb) (laws : IsLmdb l) where
  open l use {
    Env, Txn, Dbi, mdb_txn_begin, mdb_txn_commit, mdb_txn_abort, mdb_dbi_open, mdb_put, mdb_del,
    mdb_dbi_close,
  }
  open laws use {view}

  -- A transaction that has not ended, sees this, and in which mdb_dbi_open was not called.
  abbrev pub Quiet : (Env → Txn → Bool) → Txn → View → Env → Type 0
  Quiet unopened t v e = (view e t ≡ some v) × (unopened e t ≡ true)

  -- A new transaction is none that has not ended, and the calls in another transaction do not change
  -- what a quiet one sees. `unopened` tells of a transaction that mdb_dbi_open was not called in it.
  -- Nothing is said of a transaction in which it was called: no other one in the process may call it until
  -- that one has ended (lmdb.h, lines 823 to 826).
  pub record IsSnapshot : Type 0 where
    pub unopened : Env → Txn → Bool
    pub begin_fresh :
        (r : Bool) (e : Env) (t : Txn) → (mdb_txn_begin r e).0 ≡ some t → view e t ≡ none
    pub begin_unopened :
        (r : Bool) (e : Env) (t : Txn)
        → (mdb_txn_begin r e).0 ≡ some t
        → unopened (mdb_txn_begin r e).1 t ≡ true
    pub begin_others :
        (r : Bool) (e : Env) (t : Txn) (v : View)
        → Quiet unopened t v e
        → Quiet unopened t v (mdb_txn_begin r e).1
    pub commit_others :
        (t u : Txn) (e : Env) (v : View)
        → is_live (view e u) ≡ true
        → u ≢ t
        → Quiet unopened t v e
        → Quiet unopened t v (mdb_txn_commit u e).1
    pub abort_others :
        (t u : Txn) (e : Env) (v : View)
        → is_live (view e u) ≡ true
        → u ≢ t
        → Quiet unopened t v e
        → Quiet unopened t v (mdb_txn_abort u e)
    pub open_others :
        (t u : Txn) (n : Name) (c : Bool) (e : Env) (v : View)
        → u ≢ t
        → Quiet unopened t v e
        → Quiet unopened t v (mdb_dbi_open u n c e).1
    pub put_others :
        (t u : Txn) (d : Dbi) (once : Bool) (k x : Bytes) (e : Env) (v : View)
        → u ≢ t
        → Quiet unopened t v e
        → Quiet unopened t v (mdb_put u d once k x e).1
    pub del_others :
        (t u : Txn) (d : Dbi) (k : Bytes) (e : Env) (v : View)
        → u ≢ t
        → Quiet unopened t v e
        → Quiet unopened t v (mdb_del u d k e).1
    pub close_others :
        (t : Txn) (d : Dbi) (e : Env) (v : View)
        → Quiet unopened t v e
        → Quiet unopened t v (mdb_dbi_close d e)
