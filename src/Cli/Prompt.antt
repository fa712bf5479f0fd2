-- ===== src/Cli/Prompt.antt =====
-- The database that the command-line client shows, and the one that the server has selected.
use fine_db.Prelude.{ℕ, ◌<◌, ◌≡◌, refl, ap, false, some, [], ◌∷◌, ◌++◌, Bytes, length, take, arith}
use fine_db.Wire.{c_string}
use fine_db.Dynabin.{IsDynabin, HasMemory}
use fine_db.Server.{Libraries, State}
use fine_db.Server.Reading.{unread}
use fine_db.Server.Sending.{IsHealthy}
use fine_db.Command.Selects.{selected}
use fine_db.Connection.{serve_request}
use fine_db.Client.{finedb_ok, next_byte, result_of, finedb_setdb}
use fine_db.Client.Sends.{IsReady, exchange-ready}
use fine_db.Client.Naming.{setdb_request, sent_length, serve_request-setdb}
use fine_db.Cli.{Cli, check_connection}
use fine_db.Cli.Session.{is_default, command_use}

take_all : (xs : Bytes) → take (length xs) xs ≡ xs
take_all [] = refl
take_all (x ∷ xs) = ap (λ (ys : Bytes). x ∷ ys) (take_all xs)

-- A name that is sent whole.
pub record IsShort (name : Bytes) : Type 0 where
  pub text : c_string name ≡ name
  pub short : length name < 256

sent_whole : (name : Bytes) → IsShort name → take (sent_length name) (c_string name) ≡ name
sent_whole name h =
    let size : sent_length name ≡ length name = omega (arith, ap length h.text, h.short) in
    rw (size, h.text) (take_all name)

selected_short : (c : ℕ) (cs : Bytes) → IsShort (c ∷ cs) → selected (c ∷ cs) ≡ some (c ∷ cs)
selected_short c cs h = ap some h.text

module _ (lib : Libraries) (doc : IsDynabin lib.dynabin) (memory : HasMemory lib.dynabin) where
  -- For a name that is not empty or the word default, has no zero byte and is shorter than 256
  -- bytes, and a client that does not check its connection first, whose transmissions and
  -- allocations succeed and that is answered by a byte that it reads as RESP_OK: a `use` of the
  -- name sends one SETDB request and makes it the client's database; and a connection of the
  -- server whose allocations and transmissions succeed, to which this request comes in whatever
  -- chunks, has then the same database selected.
  pub command_use-selects :
      (c : ℕ) (cs rest : Bytes) (cli : Cli) (s : State lib)
      → IsShort (c ∷ cs)
      → is_default (c ∷ cs) ≡ false
      → cli.autocheck ≡ false
      → IsReady cli.finedb
      → result_of (next_byte cli.finedb.recvs).0 ≡ finedb_ok
      → IsHealthy lib s
      → unread lib s ≡ setdb_request (c ∷ cs) ++ rest
      → let r = (command_use (c ∷ cs) cli).1 in
        (r.finedb.sent ≡ cli.finedb.sent ++ setdb_request (c ∷ cs))
        × (r.dbname ≡ some (c ∷ cs))
        × ((serve_request lib s).1.dbname ≡ r.dbname)
  unfolding command_use check_connection finedb_setdb
  command_use-selects c cs rest cli s short named unchecked ready answered h front =
      let (b, rs, ran, left) = serve_request-setdb lib doc memory (c ∷ cs) rest s h front in
      ground (
        arith,
        exchange-ready (setdb_request (c ∷ cs)) cli.finedb ready,
        ran,
        ap selected (sent_whole (c ∷ cs) short),
        selected_short c cs short,
      )
