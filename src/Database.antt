-- ===== src/Database.antt =====
-- src/server/database.c: the server's calls of LMDB. `mdb_strerror` and the log are not modelled.
pub mod Atomic
pub mod Erase
pub mod Inside
pub mod Read
pub mod ReadOnly
pub mod Snapshot
pub mod Faults
mod Tests
use fine_db.Prelude.{Bool, true, false, Option, none, some, List, [], ◌∷◌, Bytes, if◌then◌else◌}
use fine_db.Yerr.{Yerr, yenoerr, yenodata, yeaccess}
use fine_db.Lmdb.{Lmdb, Name, Found, found, not_found, failed}

module _ (l : Lmdb) where
  open l use {
    Env, Txn, Dbi, mdb_txn_begin, mdb_txn_commit, mdb_txn_abort, mdb_dbi_open, mdb_dbi_close,
    mdb_put, mdb_del, mdb_get, mdb_drop, mdb_cursor,
  }

  unfoldable pub database_transaction_start : Bool → Env → Option Txn × Env
  database_transaction_start readonly e = mdb_txn_begin readonly e

  unfoldable pub database_transaction_commit : Txn → Env → Yerr × Env
  database_transaction_commit t e =
      let (done, e1) = mdb_txn_commit t e in (if done then yenoerr else yeaccess, e1)

  unfoldable pub database_transaction_rollback : Txn → Env → Env
  database_transaction_rollback t e = mdb_txn_abort t e

  -- The caller's transaction if there is one (`NULL` is `none`), or else a new one.
  unfoldable pub transaction_init : Option Txn → Bool → Env → Option Txn × Env
  unfolding database_transaction_start
  transaction_init (some t) readonly e = (some t, e)
  transaction_init none readonly e = database_transaction_start readonly e

  -- The rollback of lines 128, 167 and 298, of a transaction that the function began.
  abbrev roll_back_own : Option Txn → Txn → Yerr → Env → Yerr × Env
  roll_back_own (some u) t retval e = (retval, e)
  roll_back_own none t yenoerr e = (yenoerr, e)
  roll_back_own none t retval e = (retval, mdb_txn_abort t e)

  -- `end_of_process` of database_put and database_del: after a commit that fails the rollback is made
  -- too.
  unfoldable pub end_of_process : Option Txn → Txn → Yerr → Env → Yerr × Env
  unfolding database_transaction_commit database_transaction_rollback
  end_of_process none t yenoerr e =
      let (retval, e1) = database_transaction_commit t e in roll_back_own none t retval e1
  end_of_process transaction t retval e = roll_back_own transaction t retval e

  -- `end_of_process` of database_drop, which returns when the commit fails.
  unfoldable pub end_of_drop : Option Txn → Txn → Yerr → Env → Yerr × Env
  unfolding database_transaction_commit database_transaction_rollback
  end_of_drop none t yenoerr e = database_transaction_commit t e
  end_of_drop transaction t retval e = roll_back_own transaction t retval e

  abbrev pub code_of : Bool → Yerr
  code_of true = yenoerr
  code_of false = yeaccess

  -- In each function below, `with_…` is what follows the transaction's start, and `on_…` what
  -- follows the opening of the handle.
  on_put : Option Txn → Txn → Bool → Bytes → Bytes → Option Dbi × Env → Yerr × Env
  unfolding end_of_process
  on_put transaction t create_only key value (none, e) = end_of_process transaction t yeaccess e
  on_put transaction t create_only key value (some d, e) =
      let (done, e1) = mdb_put t d create_only key value e in
      end_of_process transaction t (code_of done) (mdb_dbi_close d e1)

  with_put : Option Txn → Bool → Name → Bytes → Bytes → Option Txn × Env → Yerr × Env
  unfolding on_put
  with_put transaction create_only name key value (none, e) = (yeaccess, e)
  with_put transaction create_only name key value (some t, e) =
      on_put transaction t create_only key value (mdb_dbi_open t name true e)

  unfoldable pub database_put : Option Txn → Bool → Name → Bytes → Bytes → Env → Yerr × Env
  unfolding transaction_init with_put
  database_put transaction create_only name key value e =
      with_put transaction create_only name key value (transaction_init transaction false e)

  on_del : Option Txn → Txn → Bytes → Option Dbi × Env → Yerr × Env
  unfolding end_of_process
  on_del transaction t key (none, e) = end_of_process transaction t yeaccess e
  on_del transaction t key (some d, e) =
      let (done, e1) = mdb_del t d key e in
      end_of_process transaction t (code_of done) (mdb_dbi_close d e1)

  with_del : Option Txn → Name → Bytes → Option Txn × Env → Yerr × Env
  unfolding on_del
  with_del transaction name key (none, e) = (yeaccess, e)
  with_del transaction name key (some t, e) = on_del transaction t key (mdb_dbi_open t name false e)

  unfoldable pub database_del : Option Txn → Name → Bytes → Env → Yerr × Env
  unfolding transaction_init with_del
  database_del transaction name key e =
      with_del transaction name key (transaction_init transaction false e)

  -- The data is set to NULL, here `none`, unless the key is found.
  get_result : Found → Yerr × Option Bytes
  get_result (found x) = (yenoerr, some x)
  get_result not_found = (yenodata, none)
  get_result failed = (yeaccess, none)

  roll_back_standalone : Option Txn → Txn → Env → Env
  unfolding database_transaction_rollback
  roll_back_standalone none t e = database_transaction_rollback t e
  roll_back_standalone (some u) t e = e

  -- Where the transaction cannot be begun, the caller's data is left as it was; it is `none` here too.
  -- When the handle cannot be opened, `goto end_of_process` skips the rollback and closes the
  -- variable `dbi`, which nothing has set: `unset` is the value that it has then.
  on_get : Dbi → Option Txn → Txn → Bytes → Option Dbi × Env → (Yerr × Option Bytes) × Env
  unfolding get_result roll_back_standalone
  on_get unset transaction t key (none, e) = ((yeaccess, none), mdb_dbi_close unset e)
  on_get unset transaction t key (some d, e) =
      (get_result (mdb_get t d key e), mdb_dbi_close d (roll_back_standalone transaction t e))

  with_get : Dbi → Option Txn → Name → Bytes → Option Txn × Env → (Yerr × Option Bytes) × Env
  unfolding on_get
  with_get unset transaction name key (none, e) = ((yeaccess, none), e)
  with_get unset transaction name key (some t, e) =
      on_get unset transaction t key (mdb_dbi_open t name false e)

  -- The data is returned as a copy. The source returns a pointer into the memory map, also where it has
  -- ended its own transaction: what another thread can then do to the data before it is sent is the torn
  -- round of Service.Concurrent.
  unfoldable pub database_get : Dbi → Option Txn → Name → Bytes → Env → (Yerr × Option Bytes) × Env
  unfolding transaction_init with_get
  database_get unset transaction name key e =
      with_get unset transaction name key (transaction_init transaction true e)

  on_drop : Option Txn → Txn → Option Dbi × Env → Yerr × Env
  unfolding end_of_drop
  on_drop transaction t (none, e) = end_of_drop transaction t yeaccess e
  on_drop transaction t (some d, e) =
      let (done, e1) = mdb_drop t d e in
      end_of_drop transaction t (code_of done) (mdb_dbi_close d e1)

  with_drop : Option Txn → Name → Option Txn × Env → Yerr × Env
  unfolding on_drop
  with_drop transaction name (none, e) = (yeaccess, e)
  with_drop transaction name (some t, e) = on_drop transaction t (mdb_dbi_open t name false e)

  unfoldable pub database_drop : Option Txn → Name → Env → Yerr × Env
  unfolding transaction_init with_drop
  database_drop transaction name e =
      with_drop transaction name (transaction_init transaction false e)

  -- The loop on the cursor: the callback is called until it returns an error.
  unfoldable pub cursor_loop :
      {S : Type 0} → (S → Bytes → Bytes → Yerr × S) → S → List (Bytes × Bytes) → S
  cursor_loop cb s [] = s
  cursor_loop cb s ((key, value) ∷ rest) =
      let r = cb s key value in elim r.0 [ yenoerr ↦ cursor_loop cb r.1 rest | _ ↦ r.1 ]

  -- The callback's own data, `cb_data`, is the state `S`.
  on_cursor :
      {S : Type 0} → (S → Bytes → Bytes → Yerr × S) → S → Option (List (Bytes × Bytes)) → Yerr × S
  unfolding cursor_loop
  on_cursor cb s none = (yeaccess, s)
  on_cursor cb s (some pairs) = (yenoerr, cursor_loop cb s pairs)

  on_list :
      {S : Type 0}
      → Option Txn
      → Txn
      → (S → Bytes → Bytes → Yerr × S)
      → S
      → Option Dbi × Env
      → (Yerr × S) × Env
  unfolding on_cursor roll_back_standalone
  on_list transaction t cb s (none, e) = ((yeaccess, s), roll_back_standalone transaction t e)
  on_list transaction t cb s (some d, e) =
      (on_cursor cb s (mdb_cursor t d e), roll_back_standalone transaction t (mdb_dbi_close d e))

  with_list :
      {S : Type 0}
      → Option Txn
      → Name
      → (S → Bytes → Bytes → Yerr × S)
      → S
      → Option Txn × Env
      → (Yerr × S) × Env
  unfolding on_list
  with_list transaction name cb s (none, e) = ((yeaccess, s), e)
  with_list transaction name cb s (some t, e) =
      on_list transaction t cb s (mdb_dbi_open t name false e)

  unfoldable pub database_list :
      {S : Type 0} → Option Txn → Name → (S → Bytes → Bytes → Yerr × S) → S → Env → (Yerr × S) × Env
  unfolding transaction_init with_list
  database_list transaction name cb s e =
      with_list transaction name cb s (transaction_init transaction true e)
