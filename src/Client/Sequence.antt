-- ===== src/Client/Sequence.antt =====
-- A PUT and a GET behind it, on one connection.
use fine_db.Prelude.{
  ◌^◌, ◌<◌, ◌≡◌, ◌≢◌, true, false, none, some, ◌++◌, Bytes, length, arith, inl, inr,
}
use fine_db.Yerr.{Yerr, yenoerr, yeaccess}
use fine_db.Lmdb.{IsLmdb}
use fine_db.Snappy.{IsSnappy}
use fine_db.Dynabin.{IsDynabin, HasMemory}
use fine_db.Protocol.{resp_ok, bad_name}
use fine_db.Database.{database_put, database_get}
use fine_db.Database.Read.{database_get-put}
use fine_db.Server.{Libraries, State}
use fine_db.Server.Reading.{unread, taken}
use fine_db.Server.Sending.{
  IsHealthy, replied, response, stored, taken-IsHealthy, stored-IsHealthy, replied-IsHealthy,
}
use fine_db.Command.Reply.{answer}
use fine_db.Connection.{serve_request}
use fine_db.Client.{put_request}
use fine_db.Client.Get.{get_request}
use fine_db.Client.Serving.{serve_request-put, serve_request-get}

pub answer_ok : (code : Yerr) → code ≡ yenoerr → answer code ≡ resp_ok
unfolding answer
answer_ok code h = ground arith

pub answer_refused : (code : Yerr) → code ≢ yenoerr → answer code ≡ bad_name
unfolding answer
answer_refused code h = ground arith

module _ (lib : Libraries) (laws : IsLmdb lib.lmdb) (doc : IsDynabin lib.dynabin)
    (memory : HasMemory lib.dynabin) (zip : IsSnappy lib.snappy) where
  -- On a connection whose allocations and transmissions succeed, outside a transaction and in the
  -- default database: a synchronous PUT of a key shorter than 2^16 with data shorter than 2^32,
  -- and a GET of the key behind it, where database_put reports success and database_get does not
  -- fail, are answered by RESP_OK, and then by RESP_OK with the data of the PUT.
  pub put_then_get :
      (key z rest : Bytes) (s : State lib)
      → IsHealthy lib s
      → s.transaction ≡ none
      → s.dbname ≡ none
      → length key < 2 ^ 16
      → length z < 2 ^ 32
      → unread lib s ≡ put_request true key z ++ (get_request key ++ rest)
      → (database_put lib.lmdb none false none key z s.env).0 ≡ yenoerr
      → (database_get lib.lmdb s.unset none none key
          (database_put lib.lmdb none false none key z s.env).1).0
        ≢ (yeaccess, none)
      → let s1 = (serve_request lib s).1 in
        (serve_request lib s1).1.sent
        ≡ (s.sent ++ response lib resp_ok false false none)
          ++ response lib resp_ok false true (some z)
  put_then_get key z rest s h fresh default short_key short_z asked done works =
      let r = database_put lib.lmdb none false none key z s.env in
      let (b, rs, ran, left) =
        serve_request-put lib doc memory key z (get_request key ++ rest) s h short_key short_z
          asked in
      let s1 =
        replied lib (stored lib (taken lib s b rs) r.1) (response lib resp_ok false false none) in
      let h1 =
        replied-IsHealthy lib (response lib resp_ok false false none)
          (stored-IsHealthy lib r.1 (taken-IsHealthy lib b rs h)) in
      let there : (database_get lib.lmdb s1.unset s1.transaction s1.dbname key s1.env).0
          ≡ (yenoerr, some z) =
        elim (database_get-put lib.lmdb laws s.unset false key z s.env done) [
          | inl same ↦ rw (fresh, default) same
          | inr failed ↦ absurd (works failed)
        ] in
      let (b2, rs2, ran2, left2) =
        serve_request-get lib doc memory zip key z rest s1 h1 short_key left there in
      ground (arith, ran, ran2, fresh, default, answer_ok r.0 done)
