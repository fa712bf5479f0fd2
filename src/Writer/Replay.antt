-- ===== src/Writer/Replay.antt =====
-- What the writer thread commits, beside a replay of the messages that its log calls done.
use fine_db.Prelude.{
  ◌≡◌, refl, Bool, true, false, Option, none, some, List, [], ◌∷◌, arith, if◌then◌else◌, Bytes,
}
use fine_db.Lmdb.{Lmdb, IsLmdb, Store, insert, erase}
use fine_db.Database.Atomic.{CommitsSucceed, database_put-committed, database_put_fails}
use fine_db.Database.Erase.{database_del-committed, database_del_fails}
use fine_db.Server.{WriterMsg, write_put, write_del, write_drop}
use fine_db.Writer.{writer_step, writer_loop, is_ok}

-- What a message asks for.
abbrev pub apply_msg : Option WriterMsg → Store → Store
apply_msg none s = s
apply_msg (some (write_put dbname name value create_only)) s = insert dbname name value s
apply_msg (some (write_del dbname name)) s = erase dbname name s
apply_msg (some (write_drop dbname)) s = s

-- The messages applied in their order, those that are marked `false` left out.
abbrev pub replay : List (Option WriterMsg) → List Bool → Store → Store
replay (msg ∷ msgs) (true ∷ done) s = replay msgs done (apply_msg msg s)
replay (msg ∷ msgs) (false ∷ done) s = replay msgs done s
replay _ _ s = s

-- A message for the default database, or one that changes nothing.
abbrev pub OnDefault : Option WriterMsg → Type 0
OnDefault (some (write_put (some n) name value create_only)) = ⊥
OnDefault (some (write_del (some n) name)) = ⊥
OnDefault msg = Unit {0}

abbrev pub AllOnDefault : List (Option WriterMsg) → Type 0
AllOnDefault [] = Unit {0}
AllOnDefault (msg ∷ msgs) = OnDefault msg × AllOnDefault msgs

module _ (l : Lmdb) (doc : IsLmdb l) where
  open doc use {committed, open_txns}

  put-replay :
      CommitsSucceed l doc
      → (create_only : Bool) (k x : Bytes) (e : l.Env)
      → let r = writer_step l (write_put none k x create_only) e in
        (committed r.1 ≡ (if r.0 then insert none k x (committed e) else committed e))
        × (open_txns r.1 ≡ open_txns e)
  unfolding writer_step is_ok
  put-replay good create_only k x e = ground (
    arith,
    database_put-committed l doc create_only k x e,
    database_put_fails l doc good create_only none k x e,
  )

  del-replay :
      CommitsSucceed l doc
      → (k : Bytes) (e : l.Env)
      → let r = writer_step l (write_del none k) e in
        (committed r.1 ≡ (if r.0 then erase none k (committed e) else committed e))
        × (open_txns r.1 ≡ open_txns e)
  unfolding writer_step is_ok
  del-replay good k e =
      ground (arith, database_del-committed l doc k e, database_del_fails l doc good none k e)

  -- One message, whichever it is.
  pub step-replay :
      CommitsSucceed l doc
      → (msg : WriterMsg) (e : l.Env) → OnDefault (some msg)
      → let r = writer_step l msg e in
        (committed r.1 ≡ (if r.0 then apply_msg (some msg) (committed e) else committed e))
        × (open_txns r.1 ≡ open_txns e)
  unfolding writer_step
  step-replay good (write_put none k x create_only) e h = put-replay good create_only k x e
  step-replay good (write_del none k) e h = del-replay good k e
  step-replay good (write_drop n) e h = (refl, refl)
  step-replay good (write_put (some n) k x create_only) e h = absurd h
  step-replay good (write_del (some n) k) e h = absurd h

  -- Where commits succeed and the messages are for the default database, the committed data after
  -- any run of the writer thread is that of before with the messages applied that the log calls done,
  -- in the order of the queue, and no transaction is left open.
  pub writer_loop-replay :
      CommitsSucceed l doc
      → (msgs : List (Option WriterMsg)) (e : l.Env) → AllOnDefault msgs
      → let r = writer_loop l msgs e in
        (committed r.1 ≡ replay msgs r.0 (committed e)) × (open_txns r.1 ≡ open_txns e)
  unfolding writer_loop
  writer_loop-replay good [] e h = (refl, refl)
  writer_loop-replay good (none ∷ msgs) e h = writer_loop-replay good msgs e h.1
  writer_loop-replay good (some (write_put none k x create_only) ∷ msgs) e h =
      let s = writer_step l (write_put none k x create_only) e in
      ground (arith, put-replay good create_only k x e, writer_loop-replay good msgs s.1 h.1)
  writer_loop-replay good (some (write_del none k) ∷ msgs) e h =
      let s = writer_step l (write_del none k) e in
      ground (arith, del-replay good k e, writer_loop-replay good msgs s.1 h.1)
  writer_loop-replay good (some (write_drop n) ∷ msgs) e h =
      ground (arith, writer_loop-replay good msgs e h.1)
  writer_loop-replay good (some (write_put (some n) k x create_only) ∷ msgs) e h = absurd h.0
  writer_loop-replay good (some (write_del (some n) k) ∷ msgs) e h = absurd h.0
