-- ===== src/Database/Snapshot.antt =====
-- What a transaction sees in which nothing was called yet, while other threads call database.c; and what
-- it sees when it reads.
use fine_db.Prelude.{
  ◌≡◌, ◌≢◌, ◌∙◌, ap, Bool, true, false, none, some, Bytes, arith, inl, inr, Option-cases,
}
use fine_db.Lmdb.{Lmdb, IsLmdb, View, Name, is_live}
use fine_db.Lmdb.Snapshot.{IsSnapshot, Quiet}
use fine_db.Database.Atomic.{CommitsSucceed}
use fine_db.Database.{
  database_put, database_get, database_del, on_put, on_del, on_get, end_of_process, code_of,
}

module _ (l : Lmdb) (laws : IsLmdb l) (docs : IsSnapshot l laws) (t : l.Txn) (v : View) where
  open l use {
    Env, Txn, Dbi, mdb_txn_begin, mdb_txn_commit, mdb_txn_abort, mdb_dbi_open, mdb_dbi_close,
    mdb_put, mdb_del,
  }
  open laws use {view}

  -- The transaction has not ended, sees this, and has opened no database.
  abbrev pub Sees : Env → Type 0
  Sees = Quiet l laws docs.unopened t v

  -- Another transaction, with a handle that it has tried to open.
  opened_other :
      (r : Bool) (u : Txn) (n : Name) (c : Bool) (e : Env)
      → Sees e
      → (mdb_txn_begin r e).0 ≡ some u
      → let e2 = (mdb_dbi_open u n c (mdb_txn_begin r e).1).1 in
        (u ≢ t) × Sees e2 × (is_live (view e2 u) ≡ true)
  opened_other r u n c e seen begun =
      let e1 = (mdb_txn_begin r e).1 in
      let other : u ≢ t =
        λ same. ground (arith, docs.begin_fresh r e u begun, ap (view e) same, seen.0) in
      (
        other,
        docs.open_others t u n c e1 v other (docs.begin_others r e t v seen),
        ground (arith, laws.begin_some r e u begun, laws.open_keeps u n c e1),
      )

  -- The end of a function in a transaction of its own.
  end-Sees :
      CommitsSucceed l laws
      → (u : Txn) (done : Bool) (e : Env) → u ≢ t
      → is_live (view e u) ≡ true
      → Sees e
      → Sees (end_of_process l none u (code_of l done) e).1
  unfolding end_of_process
  end-Sees good u true e other live seen =
      rw (good u e live) (docs.commit_others t u e v live other seen)
  end-Sees good u false e other live seen = docs.abort_others t u e v live other seen

  -- A change in a transaction of its own, and the closing of the handle.
  put_closed :
      (u : Txn) (d : Dbi) (create_only : Bool) (key value : Bytes) (e : Env)
      → u ≢ t
      → is_live (view e u) ≡ true
      → Sees e
      → let e4 = mdb_dbi_close d (mdb_put u d create_only key value e).1 in
        (is_live (view e4 u) ≡ true) × Sees e4
  put_closed u d create_only key value e other live seen =
      let e3 = (mdb_put u d create_only key value e).1 in
      (
        ground (arith, laws.put_keeps u d create_only key value e, laws.close_live d e3 u, live),
        docs.close_others t d e3 v (docs.put_others t u d create_only key value e v other seen),
      )

  del_closed :
      (u : Txn) (d : Dbi) (key : Bytes) (e : Env)
      → u ≢ t
      → is_live (view e u) ≡ true
      → Sees e
      → let e4 = mdb_dbi_close d (mdb_del u d key e).1 in (is_live (view e4 u) ≡ true) × Sees e4
  del_closed u d key e other live seen =
      let e3 = (mdb_del u d key e).1 in
      (
        ground (arith, laws.del_keeps u d key e, laws.close_live d e3 u, live),
        docs.close_others t d e3 v (docs.del_others t u d key e v other seen),
      )

  pub put-Sees :
      CommitsSucceed l laws
      → (create_only : Bool) (n : Name) (key value : Bytes) (e : Env) → Sees e
      → Sees (database_put l none create_only n key value e).1
  unfolding database_put on_put
  put-Sees good create_only n key value e seen = elim (Option-cases (mdb_txn_begin false e).0) [
    | inl gone ↦ ground (arith, gone, docs.begin_others false e t v seen)
    | inr (u, begun) ↦
        let (other, seen2, live2) = opened_other false u n true e seen begun in
        let e1 = (mdb_txn_begin false e).1 in
        let e2 = (mdb_dbi_open u n true e1).1 in
        elim (Option-cases (mdb_dbi_open u n true e1).0) [
          | inl shut ↦ ground (arith, begun, shut, end-Sees good u false e2 other live2 seen2)
          | inr (d, opened) ↦
              let r = mdb_put u d create_only key value e2 in
              let (live4, seen4) = put_closed u d create_only key value e2 other live2 seen2 in
              ground
                (arith, begun, opened, end-Sees good u r.0 (mdb_dbi_close d r.1) other live4 seen4)
        ]
  ]

  pub del-Sees :
      CommitsSucceed l laws
      → (n : Name) (key : Bytes) (e : Env) → Sees e
      → Sees (database_del l none n key e).1
  unfolding database_del on_del
  del-Sees good n key e seen = elim (Option-cases (mdb_txn_begin false e).0) [
    | inl gone ↦ ground (arith, gone, docs.begin_others false e t v seen)
    | inr (u, begun) ↦
        let (other, seen2, live2) = opened_other false u n false e seen begun in
        let e1 = (mdb_txn_begin false e).1 in
        let e2 = (mdb_dbi_open u n false e1).1 in
        elim (Option-cases (mdb_dbi_open u n false e1).0) [
          | inl shut ↦ ground (arith, begun, shut, end-Sees good u false e2 other live2 seen2)
          | inr (d, opened) ↦
              let r = mdb_del u d key e2 in
              let (live4, seen4) = del_closed u d key e2 other live2 seen2 in
              ground
                (arith, begun, opened, end-Sees good u r.0 (mdb_dbi_close d r.1) other live4 seen4)
        ]
  ]

  pub get-Sees :
      (unset : Dbi) (n : Name) (key : Bytes) (e : Env)
      → Sees e
      → Sees (database_get l unset none n key e).1
  unfolding database_get on_get
  get-Sees unset n key e seen = elim (Option-cases (mdb_txn_begin true e).0) [
    | inl gone ↦ ground (arith, gone, docs.begin_others true e t v seen)
    | inr (u, begun) ↦
        let (other, seen2, live2) = opened_other true u n false e seen begun in
        let e1 = (mdb_txn_begin true e).1 in
        let e2 = (mdb_dbi_open u n false e1).1 in
        elim (Option-cases (mdb_dbi_open u n false e1).0) [
          | inl shut ↦ ground (arith, begun, shut, docs.close_others t unset e2 v seen2)
          | inr (d, opened) ↦
              let ended = docs.abort_others t u e2 v live2 other seen2 in
              ground (arith, begun, opened, docs.close_others t d (mdb_txn_abort u e2) v ended)
        ]
  ]

module _ (l : Lmdb) (laws : IsLmdb l) (t : l.Txn) (v : View) (readonly : v.readonly ≡ true) where
  open l use {Env, Dbi, mdb_dbi_open}
  open laws use {view}

  -- Reading in the transaction does not change what it sees.
  pub get_in-view :
      (unset : Dbi) (n : Name) (key : Bytes) (e : Env)
      → view e t ≡ some v
      → view (database_get l unset (some t) n key e).1 t ≡ some v
  unfolding database_get on_get
  get_in-view unset n key e seen =
      let e1 = (mdb_dbi_open t n false e).1 in
      let seen1 = laws.open_existing t n e ∙ seen in
      elim (Option-cases (mdb_dbi_open t n false e).0) [
        | inl shut ↦ ground (arith, shut, laws.close_readonly unset e1 t v seen1 readonly)
        | inr (d, opened) ↦ ground (arith, opened, laws.close_readonly d e1 t v seen1 readonly)
      ]
