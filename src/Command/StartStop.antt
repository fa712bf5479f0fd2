-- ===== src/Command/StartStop.antt =====
-- src/server/command_start_stop.c
use fine_db.Prelude.{true, Option, none, some}
use fine_db.Yerr.{Yerr, yenoerr, yeaccess}
use fine_db.Protocol.{transaction}
use fine_db.Database.{database_transaction_start, database_transaction_rollback}
use fine_db.Server.{Libraries, State, connection_send_ok, connection_send_error}
use fine_db.Command.Reply.{Handler}

module _ (lib : Libraries) where
  roll_back : Option lib.Txn → lib.Env → lib.Env
  roll_back none e = e
  roll_back (some t) e = database_transaction_rollback lib.lmdb t e

  abbrev pub set_transaction : Option lib.Txn → lib.Env → State lib → State lib
  set_transaction t e s = record s { thread = record s.thread { transaction = t }; env = e }

  abbrev pub transaction_error : State lib → Yerr × State lib
  transaction_error s = (yeaccess, (connection_send_error lib transaction s).1)

  unfoldable pub started : Option lib.Txn → State lib → Yerr × State lib
  started none s = transaction_error s
  started (some t) s = (yenoerr, (connection_send_ok lib s).1)

  -- The transaction that START opens is a read-only one.
  unfoldable pub command_start : Handler lib
  unfolding roll_back
  command_start sync compress serialized s =
      let r = database_transaction_start lib.lmdb true (roll_back s.transaction s.env) in
      started r.0 (set_transaction r.0 r.1 s)

  unfoldable pub stopped : Option lib.Txn → State lib → Yerr × State lib
  stopped none s = transaction_error s
  stopped (some t) s = (
    yenoerr,
    (connection_send_ok lib
        (set_transaction none (database_transaction_rollback lib.lmdb t s.env) s)).1,
  )

  unfoldable pub command_stop : Handler lib
  command_stop sync compress serialized s = stopped s.transaction s
