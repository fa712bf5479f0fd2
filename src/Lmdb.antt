-- ===== src/Lmdb.antt =====
-- LMDB (`mdb_*`), a library that the program calls: its operations as a parameter, and what lmdb.h
-- documents of them as a record of laws. State is passed explicitly: `Env` is an environment with
-- every transaction and handle on it.
pub mod Sample
pub mod Snapshot
pub mod Several
use fine_db.Prelude.{
  ℕ, ◌+◌, ◌≡◌, refl, ◌≢◌, Bool, true, false, not, ◌&&◌, Option, none, some, List, Bytes, bytes_eq,
  bytes_eq_refl, if◌then◌else◌,
}

-- The name of a database; `none` is NULL, the default one.
abbrev pub Name : Type 0
Name = Option Bytes

-- What databases hold: the data under a key.
abbrev pub Store : Type 0
Store = Name → Bytes → Option Bytes

unfoldable pub name_eq : Name → Name → Bool
unfolding bytes_eq
name_eq none none = true
name_eq (some m) (some n) = bytes_eq m n
name_eq _ _ = false

pub name_eq_refl : (n : Name) → name_eq n n ≡ true
unfolding name_eq
name_eq_refl none = refl
name_eq_refl (some n) = bytes_eq_refl n

abbrev pub same_entry : Name → Bytes → Name → Bytes → Bool
same_entry m j n k = name_eq m n && bytes_eq j k

unfoldable pub insert : Name → Bytes → Bytes → Store → Store
unfolding name_eq
insert m j x s n k = if same_entry m j n k then some x else s n k

unfoldable pub erase : Name → Bytes → Store → Store
unfolding name_eq
erase m j s n k = if same_entry m j n k then none else s n k

unfoldable pub clear : Name → Store → Store
unfolding name_eq
clear m s n k = if name_eq m n then none else s n k

-- What `mdb_get` returns: 0 with the data, MDB_NOTFOUND, or another code.
pub data Found : Type 0 where
  found : Bytes → Found
  not_found failed : Found

-- A transaction that has not ended: its mode, and what it sees.
pub record View : Type 0 where
  pub readonly : Bool
  pub store : Store

-- The operations. A `Bool` result says that the call returned 0; so does `some`.
pub record Lmdb : Type 1 where
  pub Env : Type 0
  pub Txn : Type 0
  pub Dbi : Type 0
  pub mdb_txn_begin : Bool → Env → Option Txn × Env
  pub mdb_txn_commit : Txn → Env → Bool × Env
  pub mdb_txn_abort : Txn → Env → Env
  -- The flag is MDB_CREATE.
  pub mdb_dbi_open : Txn → Name → Bool → Env → Option Dbi × Env
  pub mdb_dbi_close : Dbi → Env → Env
  -- The flag is MDB_NOOVERWRITE.
  pub mdb_put : Txn → Dbi → Bool → Bytes → Bytes → Env → Bool × Env
  pub mdb_del : Txn → Dbi → Bytes → Env → Bool × Env
  pub mdb_get : Txn → Dbi → Bytes → Env → Found
  pub mdb_drop : Txn → Dbi → Env → Bool × Env
  -- `mdb_cursor_open`, and the pairs that `mdb_cursor_get` with MDB_NEXT then returns until it fails.
  pub mdb_cursor : Txn → Dbi → Env → Option (List (Bytes × Bytes))

abbrev pub is_live : Option View → Bool
is_live none = false
is_live (some v) = true

module _ (l : Lmdb) where
  open l use {
    Env, Txn, Dbi, mdb_txn_begin, mdb_txn_commit, mdb_txn_abort, mdb_dbi_open, mdb_dbi_close,
    mdb_put, mdb_del, mdb_get, mdb_drop,
  }

  -- What lmdb.h documents, over four things that one can ask of an environment: what is committed,
  -- what a transaction sees (`none` once its handle is freed), which database a handle is open on,
  -- and how many transactions have not ended.
  pub record IsLmdb : Type 0 where
    pub committed : Env → Store
    pub view : Env → Txn → Option View
    pub db_name : Env → Dbi → Option Name
    pub open_txns : Env → ℕ
    pub begin_some :
        (r : Bool) (e : Env) (t : Txn)
        → (mdb_txn_begin r e).0 ≡ some t
        → (committed (mdb_txn_begin r e).1 ≡ committed e)
          × (view (mdb_txn_begin r e).1 t ≡ some (record { readonly = r; store = committed e }))
          × (open_txns (mdb_txn_begin r e).1 ≡ open_txns e + 1)
    pub begin_none :
        (r : Bool) (e : Env)
        → (mdb_txn_begin r e).0 ≡ none
        → (committed (mdb_txn_begin r e).1 ≡ committed e)
          × (open_txns (mdb_txn_begin r e).1 ≡ open_txns e)
    -- The handle is freed whether or not the commit succeeds.
    pub commit_ends :
        (t : Txn) (e : Env)
        → is_live (view e t) ≡ true
        → (view (mdb_txn_commit t e).1 t ≡ none)
          × (open_txns (mdb_txn_commit t e).1 + 1 ≡ open_txns e)
    pub commit_true :
        (t : Txn) (e : Env) (v : View)
        → view e t ≡ some v
        → v.readonly ≡ false
        → (mdb_txn_commit t e).0 ≡ true
        → committed (mdb_txn_commit t e).1 ≡ v.store
    pub commit_false :
        (t : Txn) (e : Env)
        → is_live (view e t) ≡ true
        → (mdb_txn_commit t e).0 ≡ false
        → committed (mdb_txn_commit t e).1 ≡ committed e
    -- Nothing is documented of a handle that was freed before.
    pub abort_live :
        (t : Txn) (e : Env)
        → is_live (view e t) ≡ true
        → (committed (mdb_txn_abort t e) ≡ committed e)
          × (view (mdb_txn_abort t e) t ≡ none)
          × (open_txns (mdb_txn_abort t e) + 1 ≡ open_txns e)
    pub open_keeps :
        (t : Txn) (n : Name) (c : Bool) (e : Env)
        → (committed (mdb_dbi_open t n c e).1 ≡ committed e)
          × (is_live (view (mdb_dbi_open t n c e).1 t) ≡ is_live (view e t))
          × (open_txns (mdb_dbi_open t n c e).1 ≡ open_txns e)
    -- The creation of a named database is a change that the transaction sees.
    pub open_default :
        (t : Txn) (c : Bool) (e : Env) → view (mdb_dbi_open t none c e).1 t ≡ view e t
    pub open_existing :
        (t : Txn) (n : Name) (e : Env) → view (mdb_dbi_open t n false e).1 t ≡ view e t
    pub open_some :
        (t : Txn) (n : Name) (c : Bool) (e : Env) (d : Dbi)
        → (mdb_dbi_open t n c e).0 ≡ some d
        → db_name (mdb_dbi_open t n c e).1 d ≡ some n
    -- The three laws on mdb_dbi_close say more than lmdb.h (lines 892 to 900), which leaves open what it
    -- does to a handle that is not set or whose database an open transaction has modified: in the mdb.c
    -- beside it (from line 7337) it does nothing on the default database's handle and on one out of
    -- range, and takes only the name of a database from the environment otherwise, so that it commits
    -- nothing and ends no transaction.
    pub close_keeps :
        (d : Dbi) (e : Env)
        → (committed (mdb_dbi_close d e) ≡ committed e)
          × (open_txns (mdb_dbi_close d e) ≡ open_txns e)
    pub close_live :
        (d : Dbi) (e : Env) (t : Txn) → is_live (view (mdb_dbi_close d e) t) ≡ is_live (view e t)
    -- A handle must not be closed while a transaction that modified its database is open, so what a
    -- transaction sees is kept only if it is read-only or if the handle is the default database's.
    pub close_main :
        (d : Dbi) (e : Env) (t : Txn)
        → db_name e d ≡ some none
        → view (mdb_dbi_close d e) t ≡ view e t
    pub close_readonly :
        (d : Dbi) (e : Env) (t : Txn) (v : View)
        → view e t ≡ some v
        → v.readonly ≡ true
        → view (mdb_dbi_close d e) t ≡ some v
    pub put_keeps :
        (t : Txn) (d : Dbi) (once : Bool) (k x : Bytes) (e : Env)
        → (committed (mdb_put t d once k x e).1 ≡ committed e)
          × (open_txns (mdb_put t d once k x e).1 ≡ open_txns e)
          × (db_name (mdb_put t d once k x e).1 d ≡ db_name e d)
          × (is_live (view (mdb_put t d once k x e).1 t) ≡ is_live (view e t))
    pub put_true :
        (t : Txn) (d : Dbi) (once : Bool) (k x : Bytes) (e : Env) (v : View) (n : Name)
        → view e t ≡ some v
        → db_name e d ≡ some n
        → (mdb_put t d once k x e).0 ≡ true
        → (v.readonly ≡ false)
          × (once ≡ true → v.store n k ≡ none)
          × (view (mdb_put t d once k x e).1 t ≡ some (record v { store = insert n k x v.store }))
    -- EACCES.
    pub put_readonly :
        (t : Txn) (d : Dbi) (once : Bool) (k x : Bytes) (e : Env) (v : View)
        → view e t ≡ some v
        → v.readonly ≡ true
        → ((mdb_put t d once k x e).0 ≡ false) × (view (mdb_put t d once k x e).1 t ≡ some v)
    pub del_keeps :
        (t : Txn) (d : Dbi) (k : Bytes) (e : Env)
        → (committed (mdb_del t d k e).1 ≡ committed e)
          × (open_txns (mdb_del t d k e).1 ≡ open_txns e)
          × (db_name (mdb_del t d k e).1 d ≡ db_name e d)
          × (is_live (view (mdb_del t d k e).1 t) ≡ is_live (view e t))
    -- MDB_NOTFOUND if the key is not in the database.
    pub del_true :
        (t : Txn) (d : Dbi) (k : Bytes) (e : Env) (v : View) (n : Name)
        → view e t ≡ some v
        → db_name e d ≡ some n
        → (mdb_del t d k e).0 ≡ true
        → (v.readonly ≡ false)
          × (v.store n k ≢ none)
          × (view (mdb_del t d k e).1 t ≡ some (record v { store = erase n k v.store }))
    pub drop_keeps :
        (t : Txn) (d : Dbi) (e : Env)
        → (committed (mdb_drop t d e).1 ≡ committed e)
          × (open_txns (mdb_drop t d e).1 ≡ open_txns e)
          × (db_name (mdb_drop t d e).1 d ≡ db_name e d)
          × (is_live (view (mdb_drop t d e).1 t) ≡ is_live (view e t))
    pub get_found :
        (t : Txn) (d : Dbi) (k x : Bytes) (e : Env) (v : View) (n : Name)
        → view e t ≡ some v
        → db_name e d ≡ some n
        → mdb_get t d k e ≡ found x
        → v.store n k ≡ some x
    pub get_not_found :
        (t : Txn) (d : Dbi) (k : Bytes) (e : Env) (v : View) (n : Name)
        → view e t ≡ some v
        → db_name e d ≡ some n
        → mdb_get t d k e ≡ not_found
        → v.store n k ≡ none
