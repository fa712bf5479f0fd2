-- ===== src/Service/Changes.antt =====
-- What the calls of database.c answer, in the terms of the specification.
use fine_db.Prelude.{◌⊎◌, ◌≡◌, ◌≢◌, refl, false, none, List, Bytes, inl, inr}
use fine_db.Yerr.{Yerr, yenoerr, yenodata}
use fine_db.Lmdb.{IsLmdb}
use fine_db.Database.{database_put, database_del}
use fine_db.Database.Atomic.{CommitsSucceed, database_put-committed, database_put_fails}
use fine_db.Database.Erase.{database_del-committed, database_del_fails}
use fine_db.Server.{Libraries, WriterMsg}
use fine_db.Server.Sending.{response}
use fine_db.Command.Reply.{answer}
use fine_db.Client.Sequence.{answer_ok, answer_refused}
use fine_db.Service.{put_data, del_data, Answers, put_done, put_refused, del_done, del_refused}

Yerr-cases : (code : Yerr) → (code ≡ yenoerr) ⊎ (code ≢ yenoerr)
Yerr-cases yenoerr = inl refl
Yerr-cases yenodata = inr (λ h. cc)
Yerr-cases code = inr (λ h. cc)

module _ (lib : Libraries) (laws : IsLmdb lib.lmdb) where
  open laws use {committed}

  pub put-Answers :
      CommitsSucceed lib.lmdb laws
      → (key z : Bytes) (q : List WriterMsg) (e : lib.Env)
      → let r = database_put lib.lmdb none false none key z e in
        Answers
          (committed e, q)
          (put_data key z)
          (response lib (answer r.0) false false none)
          (committed r.1, q)
  put-Answers good key z q e = elim (Yerr-cases (database_put lib.lmdb none false none key z e).0) [
    | inl done ↦
        rw (answer_ok _ done, (database_put-committed lib.lmdb laws false key z e done).0)
          (put_done key z)
    | inr refused ↦ elim (database_put_fails lib.lmdb laws good false none key z e).1 [
      | inl done ↦ absurd (refused done)
      | inr same ↦ rw (answer_refused _ refused, same) (put_refused key z)
    ]
  ]

  pub del-Answers :
      CommitsSucceed lib.lmdb laws
      → (key : Bytes) (q : List WriterMsg) (e : lib.Env)
      → let r = database_del lib.lmdb none none key e in
        Answers
          (committed e, q)
          (del_data key)
          (response lib (answer r.0) false false none)
          (committed r.1, q)
  del-Answers good key q e = elim (Yerr-cases (database_del lib.lmdb none none key e).0) [
    | inl done ↦
        let (same, ended, there) = database_del-committed lib.lmdb laws key e done in
        rw (answer_ok _ done, same) (del_done key there)
    | inr refused ↦ elim (database_del_fails lib.lmdb laws good none key e).1 [
      | inl done ↦ absurd (refused done)
      | inr same ↦ rw (answer_refused _ refused, same) (del_refused key)
    ]
  ]
