-- ===== src/Connection/Untouched.antt =====
-- The steps of a handler that leave the transaction, the database and the queue alone.
use fine_db.Prelude.{ℕ, ◌≡◌, refl, Bool, Option, Bytes, arith}
use fine_db.Exec.{◌>>=◌}
use fine_db.Exec.Keeps.{Keeps}
use fine_db.Lmdb.{Name}
use fine_db.Protocol.{Response}
use fine_db.Server.{Libraries, State, read, connection_send_response, ymalloc, strdup_dbname}
use fine_db.Server.Reading.{read-only}
use fine_db.Command.Setdb.{set_dbname}

module _ (lib : Libraries) where
  -- The transaction, the database and the queue are as before.
  pub record Untouched (s t : State lib) : Type 0 where
    pub same_txn : t.transaction ≡ s.transaction
    pub same_env : t.env ≡ s.env
    pub same_queue : t.queue ≡ s.queue

  pub response-Untouched :
      (code : Response) (serialized compressed : Bool) (x : Option Bytes)
      → Keeps Untouched (connection_send_response lib code serialized compressed x)
  unfolding connection_send_response
  response-Untouched code serialized compressed x = record { at = λ s. ground arith }

  pub ymalloc-Untouched : Keeps Untouched (ymalloc lib)
  unfolding ymalloc ◌>>=◌
  ymalloc-Untouched = record { at = λ s. ground arith }

  pub strdup-Untouched : Keeps Untouched (strdup_dbname lib)
  unfolding strdup_dbname ◌>>=◌
  strdup-Untouched = record { at = λ s. ground arith }

  pub read-Untouched : (n : ℕ) → Keeps Untouched (read lib n)
  read-Untouched n = record {
    at = λ s. let (b, rs, same) = read-only lib n s in ground (arith, same);
  }

  pub dbname-Untouched : (n : Name) → Keeps Untouched (set_dbname lib n)
  unfolding set_dbname ◌>>=◌
  dbname-Untouched n = record {
    at = λ s. record { same_txn = refl; same_env = refl; same_queue = refl };
  }
