-- ===== src/Database/Erase.antt =====
-- database_del and database_drop outside a transaction: what is committed, and which transactions are left.
use fine_db.Prelude.{
  ◌⊎◌, ◌+◌, ◌≡◌, ◌≢◌, true, false, Option, none, some, Bytes, arith, inl, inr, Option-cases,
}
use fine_db.Yerr.{yenoerr}
use fine_db.Lmdb.{Lmdb, IsLmdb, View, Name, erase, is_live}
use fine_db.Database.{on_del, database_del, on_drop, database_drop, end_of_drop}
use fine_db.Database.Atomic.{CommitsSucceed, commit_end, any_end}

module _ (l : Lmdb) (doc : IsLmdb l) where
  open l use {
    Env, Txn, Dbi, mdb_txn_begin, mdb_txn_commit, mdb_txn_abort, mdb_dbi_open, mdb_dbi_close,
    mdb_del, mdb_drop,
  }
  open doc use {committed, view, db_name, open_txns}

  del_success :
      (t : Txn) (k : Bytes) (d : Dbi) (e : Env) (v : View)
      → view e t ≡ some v
      → db_name e d ≡ some none
      → (on_del l none t k (some d, e)).0 ≡ yenoerr
      → let e' = (on_del l none t k (some d, e)).1 in
        (committed e' ≡ erase none k v.store)
        × (open_txns e' + 1 ≡ open_txns e)
        × (v.store none k ≢ none)
  unfolding on_del
  del_success t k d e v h n r = ground (
    arith,
    doc.del_true t d k e v none,
    doc.del_keeps t d k e,
    doc.close_keeps d (mdb_del t d k e).1,
    doc.close_main d (mdb_del t d k e).1 t,
    commit_end l doc t (mdb_dbi_close d (mdb_del t d k e).1)
        (record v { store = erase none k v.store }),
  )

  del_end :
      CommitsSucceed l doc
      → (t : Txn) (k : Bytes) (o : Option Dbi) (e : Env) → is_live (view e t) ≡ true
      → let r = on_del l none t k (o, e) in
        (open_txns r.1 + 1 ≡ open_txns e) × (r.0 ≢ yenoerr → committed r.1 ≡ committed e)
  unfolding on_del
  del_end good t k none e h = any_end l doc good t false e h
  del_end good t k (some d) e h = ground (
    arith,
    doc.del_keeps t d k e,
    doc.close_keeps d (mdb_del t d k e).1,
    doc.close_live d (mdb_del t d k e).1 t,
    any_end l doc good t (mdb_del t d k e).0 (mdb_dbi_close d (mdb_del t d k e).1),
  )

  -- What database_del reports as done, outside a transaction and in the default database, is
  -- committed and nothing else is changed; the key was there; and the transaction that it began has
  -- ended.
  pub database_del-committed :
      (k : Bytes) (e : Env)
      → (database_del l none none k e).0 ≡ yenoerr
      → let e' = (database_del l none none k e).1 in
        (committed e' ≡ erase none k (committed e))
        × (open_txns e' ≡ open_txns e)
        × (committed e none k ≢ none)
  unfolding database_del
  database_del-committed k e r = elim (Option-cases (mdb_txn_begin false e).0) [
    | inl gone ↦ absurd (ground arith)
    | inr (t, begun) ↦
        let e1 = (mdb_txn_begin false e).1 in
        elim (Option-cases (mdb_dbi_open t none false e1).0) [
          | inl shut ↦ absurd (ground arith)
          | inr (d, opened) ↦ ground (
            arith,
            doc.begin_some false e t,
            doc.open_keeps t none false e1,
            doc.open_existing t none e1,
            doc.open_some t none false e1 d,
            del_success t k d (mdb_dbi_open t none false e1).1
                (record { readonly = false; store = committed e }),
          )
        ]
  ]

  -- Where commits succeed, database_del outside a transaction leaves no transaction open, and if it
  -- reports an error it has committed nothing: in every database and on every path.
  pub database_del_fails :
      CommitsSucceed l doc
      → (n : Name) (k : Bytes) (e : Env)
      → let r = database_del l none n k e in
        (open_txns r.1 ≡ open_txns e) × ((r.0 ≡ yenoerr) ⊎ (committed r.1 ≡ committed e))
  unfolding database_del
  database_del_fails good n k e = elim (Option-cases (mdb_txn_begin false e).0) [
    | inl gone ↦ ground (arith, doc.begin_none false e)
    | inr (t, begun) ↦
        let e1 = (mdb_txn_begin false e).1 in
        ground (
          arith,
          doc.begin_some false e t,
          doc.open_keeps t n false e1,
          doc.open_existing t n e1,
          del_end good t k (mdb_dbi_open t n false e1).0 (mdb_dbi_open t n false e1).1,
        )
  ]

  drop_end :
      (t : Txn) (o : Option Dbi) (e : Env)
      → is_live (view e t) ≡ true
      → let r = on_drop l none t (o, e) in
        (open_txns r.1 + 1 ≡ open_txns e) × (r.0 ≢ yenoerr → committed r.1 ≡ committed e)
  unfolding on_drop end_of_drop
  drop_end t none e h = ground (arith, doc.abort_live t e)
  drop_end t (some d) e h =
      let e1 = mdb_dbi_close d (mdb_drop t d e).1 in
      ground (
        arith,
        doc.drop_keeps t d e,
        doc.close_keeps d (mdb_drop t d e).1,
        doc.close_live d (mdb_drop t d e).1 t,
        doc.commit_ends t e1,
        doc.commit_false t e1,
        doc.abort_live t e1,
      )

  -- database_drop outside a transaction leaves no transaction open, and if it reports an error it
  -- has committed nothing: in every database, on every path, and also where the commit fails.
  pub database_drop_fails :
      (n : Name) (e : Env)
      → let r = database_drop l none n e in
        (open_txns r.1 ≡ open_txns e) × ((r.0 ≡ yenoerr) ⊎ (committed r.1 ≡ committed e))
  unfolding database_drop
  database_drop_fails n e = elim (Option-cases (mdb_txn_begin false e).0) [
    | inl gone ↦ ground (arith, doc.begin_none false e)
    | inr (t, begun) ↦
        let e1 = (mdb_txn_begin false e).1 in
        ground (
          arith,
          doc.begin_some false e t,
          doc.open_keeps t n false e1,
          doc.open_existing t n e1,
          drop_end t (mdb_dbi_open t n false e1).0 (mdb_dbi_open t n false e1).1,
        )
  ]
