-- ===== src/Database/Inside.antt =====
-- Calls of database.c in a transaction that the caller has.
use fine_db.Prelude.{◌≡◌, Bool, true, false, some, Bytes, arith, inl, inr, Option-cases}
use fine_db.Lmdb.{Lmdb, IsLmdb, Name, is_live}
use fine_db.Database.{database_put, database_get, database_del, on_put, on_del, on_get}

module _ (l : Lmdb) (doc : IsLmdb l) where
  open l use {Env, Txn, Dbi, mdb_dbi_open, mdb_put, mdb_del}
  open doc use {committed, view}

  -- Nothing is committed, and the transaction is as alive as before.
  abbrev pub Inside : Txn → Env → Env → Type 0
  Inside t e e' = (committed e' ≡ committed e) × (is_live (view e' t) ≡ is_live (view e t))

  pub database_put-Inside :
      (t : Txn) (create_only : Bool) (n : Name) (key value : Bytes) (e : Env)
      → Inside t e (database_put l (some t) create_only n key value e).1
  unfolding database_put on_put
  database_put-Inside t create_only n key value e =
      let e1 = (mdb_dbi_open t n true e).1 in
      elim (Option-cases (mdb_dbi_open t n true e).0) [
        | inl shut ↦ ground (arith, doc.open_keeps t n true e)
        | inr (d, opened) ↦ ground (
          arith,
          doc.open_keeps t n true e,
          doc.put_keeps t d create_only key value e1,
          doc.close_keeps d (mdb_put t d create_only key value e1).1,
          doc.close_live d (mdb_put t d create_only key value e1).1 t,
        )
      ]

  pub database_del-Inside :
      (t : Txn) (n : Name) (key : Bytes) (e : Env) → Inside t e (database_del l (some t) n key e).1
  unfolding database_del on_del
  database_del-Inside t n key e =
      let e1 = (mdb_dbi_open t n false e).1 in
      elim (Option-cases (mdb_dbi_open t n false e).0) [
        | inl shut ↦ ground (arith, doc.open_keeps t n false e)
        | inr (d, opened) ↦ ground (
          arith,
          doc.open_keeps t n false e,
          doc.del_keeps t d key e1,
          doc.close_keeps d (mdb_del t d key e1).1,
          doc.close_live d (mdb_del t d key e1).1 t,
        )
      ]

  pub database_get-Inside :
      (unset : Dbi) (t : Txn) (n : Name) (key : Bytes) (e : Env)
      → Inside t e (database_get l unset (some t) n key e).1
  unfolding database_get on_get
  database_get-Inside unset t n key e =
      let e1 = (mdb_dbi_open t n false e).1 in
      elim (Option-cases (mdb_dbi_open t n false e).0) [
        | inl shut ↦
            ground (
              arith,
              doc.open_keeps t n false e,
              doc.close_keeps unset e1,
              doc.close_live unset e1 t,
            )
        | inr (d, opened) ↦
            ground (arith, doc.open_keeps t n false e, doc.close_keeps d e1, doc.close_live d e1 t)
      ]
