-- ===== src/Database/Read.antt =====
-- database_get: what it reads, outside a transaction and in one, and after a write.
use fine_db.Prelude.{
  ◌⊎◌, ◌+◌, ◌≡◌, ◌≢◌, refl, Bool, true, false, Option, none, some, Bytes, arith, inl, inr,
  Option-cases, bytes_eq_refl, ap,
}
use fine_db.Yerr.{Yerr, yenoerr, yeaccess, yenodata}
use fine_db.Lmdb.{
  Lmdb, IsLmdb, View, Name, Store, insert, name_eq_refl, Found, found, not_found, failed,
}
use fine_db.Database.{database_get, database_put, on_get}
use fine_db.Database.Atomic.{database_put-committed}

-- The code and the data for what stands under a key.
abbrev pub told : Option Bytes → Yerr × Option Bytes
told none = (yenodata, none)
told (some x) = (yenoerr, some x)

-- A result of database_get tells of a store what stands under the key, or that the call failed.
abbrev pub Tells : Yerr × Option Bytes → Store → Name → Bytes → Type 0
Tells r s n k = (r ≡ told (s n k)) ⊎ (r ≡ (yeaccess, none))

pub insert_self : (n : Name) (k x : Bytes) (s : Store) → insert n k x s n k ≡ some x
unfolding insert
insert_self n k x s = simp (name_eq_refl, bytes_eq_refl)

module _ (l : Lmdb) (doc : IsLmdb l) where
  open l use {Env, Txn, Dbi, mdb_txn_begin, mdb_txn_abort, mdb_dbi_open, mdb_dbi_close, mdb_get}
  open doc use {committed, view, db_name, open_txns}

  get-Tells :
      (unset : Dbi) (transaction : Option Txn) (t : Txn) (n : Name) (k : Bytes) (o : Option Dbi)
      (e : Env) (v : View)
      → view e t ≡ some v
      → ((d : Dbi) → o ≡ some d → db_name e d ≡ some n)
      → Tells (on_get l unset transaction t k (o, e)).0 v.store n k
  unfolding on_get
  get-Tells unset transaction t n k none e v h named = ground arith
  get-Tells unset transaction t n k (some d) e v h named = go (mdb_get t d k e) refl
    where
      go :
          (f : Found)
          → mdb_get t d k e ≡ f
          → Tells (on_get l unset transaction t k (some d, e)).0 v.store n k
      go (found x) q = ground (arith, doc.get_found t d k x e v n, named d refl)
      go not_found q = ground (arith, doc.get_not_found t d k e v n, named d refl)
      go failed q = ground arith

  -- Outside a transaction, database_get returns YENOERR with the data that is committed under the key,
  -- or YENODATA if there is none; or it fails with YEACCESS.
  pub database_get-Tells :
      (unset : Dbi) (n : Name) (k : Bytes) (e : Env)
      → Tells (database_get l unset none n k e).0 (committed e) n k
  unfolding database_get
  database_get-Tells unset n k e = elim (Option-cases (mdb_txn_begin true e).0) [
    | inl gone ↦ ground arith
    | inr (t, begun) ↦
        let e1 = (mdb_txn_begin true e).1 in
        ground (
          arith,
          doc.begin_some true e t,
          doc.open_keeps t n false e1,
          doc.open_existing t n e1,
          get-Tells unset none t n k (mdb_dbi_open t n false e1).0 (mdb_dbi_open t n false e1).1
              (record { readonly = true; store = committed e })
              (ground (
                arith,
                doc.begin_some true e t,
                doc.open_keeps t n false e1,
                doc.open_existing t n e1,
              ))
              (doc.open_some t n false e1),
        )
  ]

  -- In a transaction that has not ended, database_get returns YENOERR with the data that the
  -- transaction sees under the key, or YENODATA if it sees none; or it fails with YEACCESS.
  pub database_get-transaction :
      (unset : Dbi) (t : Txn) (n : Name) (k : Bytes) (e : Env) (v : View)
      → view e t ≡ some v
      → Tells (database_get l unset (some t) n k e).0 v.store n k
  unfolding database_get
  database_get-transaction unset t n k e v h =
      get-Tells unset (some t) t n k (mdb_dbi_open t n false e).0 (mdb_dbi_open t n false e).1 v
        (ground (arith, doc.open_keeps t n false e, doc.open_existing t n e))
        (doc.open_some t n false e)

  -- After database_put has reported that it stored data under a key of the default database, a
  -- database_get of that key returns that data, or fails with YEACCESS.
  pub database_get-put :
      (unset : Dbi) (create_only : Bool) (k x : Bytes) (e : Env)
      → (database_put l none create_only none k x e).0 ≡ yenoerr
      → let r =
          (database_get l unset none none k (database_put l none create_only none k x e).1).0 in
        (r ≡ (yenoerr, some x)) ⊎ (r ≡ (yeaccess, none))
  database_get-put unset create_only k x e done = ground (
    arith,
    database_put-committed l doc create_only k x e done,
    database_get-Tells unset none k (database_put l none create_only none k x e).1,
    insert_self none k x (committed e),
    ap (λ (s : Store). s none k) (database_put-committed l doc create_only k x e done).0,
  )

  -- Outside a transaction, where the reading transaction can be begun, database_get commits
  -- nothing. Either the database's handle cannot be opened, and then it fails with YEACCESS and
  -- the transaction that it began stays open; or it can, and then that transaction has ended.
  pub database_get_leaks :
      (unset : Dbi) (n : Name) (k : Bytes) (e : Env) (t : Txn)
      → (mdb_txn_begin true e).0 ≡ some t
      → let r = database_get l unset none n k e in
        let opened = (mdb_dbi_open t n false (mdb_txn_begin true e).1).0 in
        (committed r.1 ≡ committed e)
        × (((opened ≡ none) × (r.0 ≡ (yeaccess, none)) × (open_txns r.1 ≡ open_txns e + 1))
            ⊎ ((opened ≢ none) × (open_txns r.1 ≡ open_txns e)))
  unfolding database_get on_get
  database_get_leaks unset n k e t begun =
      let e1 = (mdb_txn_begin true e).1 in
      let e2 = (mdb_dbi_open t n false e1).1 in
      elim (Option-cases (mdb_dbi_open t n false e1).0) [
        | inl shut ↦ ground (
          arith,
          doc.begin_some true e t,
          doc.open_keeps t n false e1,
          doc.open_existing t n e1,
          doc.close_keeps unset e2,
        )
        | inr (d, opened) ↦ ground (
          arith,
          doc.begin_some true e t,
          doc.open_keeps t n false e1,
          doc.open_existing t n e1,
          doc.abort_live t e2,
          doc.close_keeps d (mdb_txn_abort t e2),
        )
      ]
