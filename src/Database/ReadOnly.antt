-- ===== src/Database/ReadOnly.antt =====
-- Writes in a transaction that is read-only.
use fine_db.Prelude.{◌≡◌, ◌≢◌, Bool, true, none, some, Bytes, arith, inl, inr, Option-cases}
use fine_db.Yerr.{yenoerr}
use fine_db.Lmdb.{Lmdb, IsLmdb, View}
use fine_db.Database.{database_put}

module _ (l : Lmdb) (doc : IsLmdb l) where
  open l use {Env, Txn, mdb_dbi_open, mdb_put}
  open doc use {committed, view}

  -- database_put in a read-only transaction, in the default database, reports an error; it commits
  -- nothing, and the transaction goes on and sees what it saw.
  pub database_put_readonly :
      (create_only : Bool) (k x : Bytes) (t : Txn) (e : Env) (v : View)
      → view e t ≡ some v
      → v.readonly ≡ true
      → let r = database_put l (some t) create_only none k x e in
        (r.0 ≢ yenoerr) × (committed r.1 ≡ committed e) × (view r.1 t ≡ some v)
  unfolding database_put
  database_put_readonly create_only k x t e v seen readonly =
      let e1 = (mdb_dbi_open t none true e).1 in
      elim (Option-cases (mdb_dbi_open t none true e).0) [
        | inl shut ↦
            ground (arith, shut, doc.open_keeps t none true e, doc.open_default t true e, seen)
        | inr (d, opened) ↦ ground (
          arith,
          doc.open_keeps t none true e,
          doc.open_default t true e,
          doc.open_some t none true e d,
          doc.put_readonly t d create_only k x e1 v,
          doc.put_keeps t d create_only k x e1,
          doc.close_keeps d (mdb_put t d create_only k x e1).1,
          doc.close_readonly d (mdb_put t d create_only k x e1).1 t v,
        )
      ]
