-- ===== src/Cli/Reconnect.antt =====
-- What the command-line client does when the server has gone and comes back.
use fine_db.Prelude.{
  ℕ, ◌≡◌, ◌≢◌, refl, ◌∙◌, true, false, Option, some, List, [], ◌∷◌, ◌++◌, Bytes, arith,
}
use fine_db.Dynabin.{Dynabin}
use fine_db.Snappy.{Snappy}
use fine_db.Socket.{Socket}
use fine_db.Client.{
  Client, FinedbResult, finedb_ok, finedb_ping, put_request, send_simple_request, exchange, send,
  read_code,
}
use fine_db.Client.Sends.{IsReady, finedb_put-sends}
use fine_db.Cli.{Cli, check_connection, finedb_connect, command_send_data}
use fine_db.Cli.Line.{quote}
use fine_db.Cli.Quoting.{IsPlain, quoted, read_key_data-quoted}
use fine_db.Cli.Session.{command_stop, no_transaction}

-- A request of one byte allocates nothing.
ping-allocs : (c : Client) → (finedb_ping c).1.allocs ≡ c.allocs
unfolding finedb_ping send_simple_request exchange send read_code
ping-allocs c = ground arith

ping-sync : (c : Client) → (finedb_ping c).1.sync ≡ c.sync
unfolding finedb_ping send_simple_request exchange send read_code
ping-sync c = ground arith

-- The client checks its connection, the server does not answer, and the host can be reached.
pub record IsBack (cli : Cli) (fd : ℕ) (peer : Socket) (hosts : List (Option (ℕ × Socket)))
    : Type 0 where
  pub checked : cli.autocheck ≡ true
  pub gone : (finedb_ping cli.finedb).0 ≢ finedb_ok
  pub host : cli.reachable ≡ some (fd, peer) ∷ hosts

-- The client on its new connection: the database's name is kept, the transaction is given up.
abbrev pub back : Cli → ℕ → Socket → List (Option (ℕ × Socket)) → Cli
back cli fd peer hosts = record cli {
  finedb = record (finedb_ping cli.finedb).1 { sock = some fd; socket = peer };
  reachable = hosts;
  in_transaction = false;
}

pub check_connection-back :
    (cli : Cli) (fd : ℕ) (peer : Socket) (hosts : List (Option (ℕ × Socket)))
    → IsBack cli fd peer hosts
    → check_connection cli ≡ (true, back cli fd peer hosts)
unfolding check_connection finedb_connect
check_connection-back cli fd peer hosts h = go (finedb_ping cli.finedb).0 refl
  where
    go :
        (r : FinedbResult)
        → (finedb_ping cli.finedb).0 ≡ r
        → check_connection cli ≡ (true, back cli fd peer hosts)
    go finedb_ok e = absurd (h.gone e)
    go r e = ground (arith, e, h.checked, h.host)

-- Where the client checks its connection, the server does not answer but can be reached again, no
-- allocation fails, all that is sent on the new connection gets through, and Snappy compresses the
-- value: a `put` line with a key without quotes, that is not empty, makes the client send one PUT
-- request on the new connection and nothing before it, no SETDB; but the client keeps the name of
-- the database that was in use.
pub put_after_reconnect :
    (dyn : Dynabin) (zip : Snappy) (c : ℕ) (cs value z : Bytes) (cli : Cli) (fd : ℕ) (peer : Socket)
    (hosts : List (Option (ℕ × Socket)))
    → IsPlain (c ∷ cs)
    → IsBack cli fd peer hosts
    → cli.finedb.allocs ≡ []
    → peer.sends ≡ []
    → zip.snappy_compress value ≡ some z
    → let line = quote ∷ ((c ∷ cs) ++ quote ∷ (32 ∷ quoted value)) in
      let r = command_send_data dyn zip false false line cli in
      (r.1.finedb.sent ≡ peer.sent ++ put_request cli.finedb.sync (c ∷ cs) z)
      × (r.1.dbname ≡ cli.dbname)
unfolding command_send_data
put_after_reconnect dyn zip c cs value z cli fd peer hosts h b memory line zipped =
    let c1 : Client = record (finedb_ping cli.finedb).1 { sock = some fd; socket = peer } in
    let ready : IsReady c1 = record {
      connected = λ e. absurd (ground arith);
      memory = ping-allocs cli.finedb ∙ memory;
      line = line;
    } in
    ground (
      arith,
      read_key_data-quoted c cs value h,
      check_connection-back cli fd peer hosts b,
      ping-sync cli.finedb,
      finedb_put-sends zip (c ∷ cs) value z c1 ready zipped,
    )

-- Where the client checks its connection, and the server does not answer but can be reached again,
-- a `stop` tells that no transaction is open and sends nothing on the new connection, whether or
-- not there was a transaction before.
pub stop_after_reconnect :
    (cli : Cli) (fd : ℕ) (peer : Socket) (hosts : List (Option (ℕ × Socket)))
    → IsBack cli fd peer hosts
    → let r = command_stop cli in
      (r.0 ≡ no_transaction ∷ []) × (r.1.finedb.sent ≡ peer.sent) × (r.1.in_transaction ≡ false)
unfolding command_stop
stop_after_reconnect cli fd peer hosts b = ground (arith, check_connection-back cli fd peer hosts b)
