-- ===== src/Writer/Snapshot.antt =====
-- What a transaction sees in which nothing was called yet, while the writer thread and the connection
-- threads work.
use fine_db.Lmdb.{Lmdb, IsLmdb, View}
use fine_db.Lmdb.Snapshot.{IsSnapshot}
use fine_db.Database.Atomic.{CommitsSucceed}
use fine_db.Database.Snapshot.{Sees, put-Sees, del-Sees, get-Sees}
use fine_db.Server.{WriterMsg, write_put, write_del, write_drop}
use fine_db.Writer.{writer_step}
use fine_db.Writer.Interleaved.{System, Step, send_msg, change_now, read_now, write_next}

module _ (l : Lmdb) where
  -- Steps of any threads, in any order.
  pub data Runs (y : System l) : System l → Type 0 where
    no_step : Runs y y
    one_more : {x z : System l} → Runs y x → Step l x z → Runs y z

module _ (l : Lmdb) (laws : IsLmdb l) (docs : IsSnapshot l laws) (t : l.Txn) (v : View) where
  writer_step-Sees :
      CommitsSucceed l laws
      → (msg : WriterMsg) (e : l.Env) → Sees l laws docs t v e
      → Sees l laws docs t v (writer_step l msg e).1
  unfolding writer_step
  writer_step-Sees good (write_put n key value once) e seen =
      put-Sees l laws docs t v good once n key value e seen
  writer_step-Sees good (write_del n key) e seen = del-Sees l laws docs t v good n key e seen
  writer_step-Sees good (write_drop n) e seen = seen

  Step-Sees :
      CommitsSucceed l laws
      → {y z : System l} → Step l y z
      → Sees l laws docs t v y.env
      → Sees l laws docs t v z.env
  Step-Sees good (send_msg y i msg fits) seen = seen
  Step-Sees good (change_now y msg fits) seen = writer_step-Sees good msg y.env seen
  Step-Sees good (read_now y unset n key) seen = get-Sees l laws docs t v unset n key y.env seen
  Step-Sees good (write_next y i msg rest fits first) seen = writer_step-Sees good msg y.env seen

  pub Runs-Sees :
      CommitsSucceed l laws
      → {y z : System l} → Runs l y z
      → Sees l laws docs t v y.env
      → Sees l laws docs t v z.env
  Runs-Sees good no_step seen = seen
  Runs-Sees good (one_more run step) seen = Step-Sees good step (Runs-Sees good run seen)
