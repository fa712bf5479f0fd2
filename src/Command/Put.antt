-- ===== src/Command/Put.antt =====
-- src/server/command_put.c
use fine_db.Prelude.{
  ℕ, zero, suc, Bool, true, false, ◌||◌, Option, none, some, [], Bytes, if◌then◌else◌,
}
use fine_db.Yerr.{Yerr, yenoerr, yenodata}
use fine_db.Exec.{pure, jump, gets, label, ◌>>=◌, ◌>>◌}
use fine_db.Wire.{ntohl}
use fine_db.Database.{
  database_put, database_get, database_transaction_start, database_transaction_commit,
  database_transaction_rollback,
}
use fine_db.Server.{
  Libraries, M, write_put, read, ymalloc, strdup_dbname, nn_send, on_env, server_error,
}
use fine_db.Command.Reply.{Handler, respond_early, respond, read_key}

module _ (lib : Libraries) where
  unfoldable pub read_block : ℕ → M lib Bytes
  read_block zero = pure []
  read_block (suc n) = do value ← read lib (suc n); ymalloc lib; pure value

  -- The data behind its length; NULL, here the empty list, if the length is 0.
  unfoldable pub read_value : M lib Bytes
  read_value = do data_len ← read lib 4; read_block (ntohl data_len)

  unfoldable pub or_jump : {A : Type 0} → Option A → M lib A
  or_jump none = jump
  or_jump (some a) = pure a

  -- Data that the client has not compressed. `snappy_init_env` allocates too, and fails if it cannot.
  unfoldable pub zipped : Bool → Bytes → M lib Bytes
  zipped compress value =
      if compress
      then pure value
      else do ymalloc lib; ymalloc lib; or_jump (lib.snappy_compress value)

  unfoldable pub put_later : Bool → Bytes → Bytes → M lib Yerr
  put_later create_only key value = do
    name ← strdup_dbname lib
    nn_send lib (write_put name key value create_only)
    pure yenoerr

  -- The part for `update_only`: the transaction `txn` in which the key is checked.
  own_transaction : Option lib.Txn → M lib lib.Txn
  own_transaction (some t) = pure t
  own_transaction none = do
    r ← on_env lib (λ s. database_transaction_start lib.lmdb false)
    or_jump r

  roll_back_unless : Option lib.Txn → lib.Txn → M lib (Unit {0})
  roll_back_unless (some u) t = pure tt
  roll_back_unless none t =
      λ s. (some tt, record s { env = database_transaction_rollback lib.lmdb t s.env })

  commit_unless : Option lib.Txn → lib.Txn → M lib (Unit {0})
  commit_unless (some u) t = pure tt
  commit_unless none t = do
    code ← on_env lib (λ s. database_transaction_commit lib.lmdb t)
    elim code [ yenoerr ↦ pure tt | _ ↦ jump ]

  put_in : Bool → Option lib.Txn → Bytes → Bytes → M lib Yerr
  put_in create_only txn key value =
      on_env lib (λ s. database_put lib.lmdb txn create_only s.dbname key value)

  update_found : Bool → Option lib.Txn → lib.Txn → Bytes → Bytes → Yerr → M lib Yerr
  unfolding put_in commit_unless roll_back_unless
  update_found create_only transaction t key value yenoerr = do
    code ← put_in create_only (some t) key value
    commit_unless transaction t
    respond lib code
  update_found create_only transaction t key value yenodata = do
    roll_back_unless transaction t
    respond lib yenodata
  update_found create_only transaction t key value e = do roll_back_unless transaction t; jump

  unfoldable pub put_now : Bool → Bool → Bytes → Bytes → M lib Yerr
  unfolding own_transaction update_found put_in
  put_now create_only false key value = do
    txn ← gets (λ s. s.transaction)
    code ← put_in create_only txn key value
    respond lib code
  put_now create_only true key value = do
    transaction ← gets (λ s. s.transaction)
    t ← own_transaction transaction
    r ← on_env lib (λ s. database_get lib.lmdb s.unset (some t) s.dbname key)
    update_found create_only transaction t key value r.0

  put_body : Bool → Bool → Bool → Bool → M lib Yerr
  unfolding put_later put_now
  put_body create_only update_only asked compress =
      let sync = update_only || asked in
      do
        key ← read_key lib
        value ← read_value
        respond_early lib sync
        ymalloc lib
        stored ← zipped compress value
        if sync
            then put_now create_only update_only key stored
            else put_later create_only key stored

  -- create_only and update_only are the constants YFALSE in command_put.
  unfoldable pub command_put : Handler lib
  unfolding put_body
  command_put sync compress serialized =
      label (put_body false false sync compress) (server_error lib)
