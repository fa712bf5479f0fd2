-- ===== src/Service/Rounds.antt =====
-- One round of the loop on requests, beside the answers of the specification.
use fine_db.Prelude.{◌⊎◌, ◌≡◌, ◌++◌, Bytes, inl}
use fine_db.Lmdb.{IsLmdb}
use fine_db.Dynabin.{IsDynabin, HasMemory}
use fine_db.Snappy.{IsSnappy}
use fine_db.Database.Atomic.{CommitsSucceed}
use fine_db.Server.{Libraries, State}
use fine_db.Server.Reading.{unread}
use fine_db.Service.{
  Request, put_async, del_async, ping_server, put_data, get_data, del_data, encode, Fits,
}
use fine_db.Service.Plain.{IsPlain, Answered, GetFailed}
use fine_db.Service.Writes.{put_round, del_round, put_async_round, del_async_round}
use fine_db.Service.Reads.{ping_round, get_round}

module _ (lib : Libraries) (laws : IsLmdb lib.lmdb) (doc : IsDynabin lib.dynabin)
    (memory : HasMemory lib.dynabin) where
  open laws use {committed}

  pub round :
      IsSnappy lib.snappy
      → CommitsSucceed lib.lmdb laws
      → (r : Request) (rest : Bytes) (s : State lib) → Fits r
      → IsPlain lib laws s
      → unread lib s ≡ encode r ++ rest
      → Answered lib laws s r rest ⊎ GetFailed lib laws s r
  round zip good ping_server rest s fits p front =
      inl (ping_round lib laws doc memory rest s p front)
  round zip good (put_data key z) rest s fits p front =
      inl (put_round lib laws doc memory good key z rest s fits p front)
  round zip good (get_data key) rest s fits p front =
      get_round lib laws doc memory zip key rest s fits p front
  round zip good (del_data key) rest s fits p front =
      inl (del_round lib laws doc memory good key rest s fits p front)
  round zip good (put_async key z) rest s fits p front =
      inl (put_async_round lib laws doc memory key z rest s fits p front)
  round zip good (del_async key) rest s fits p front =
      inl (del_async_round lib laws doc memory key rest s fits p front)
