-- ===== src/Service/Writes.antt =====
-- PUT and DEL, beside the answers of the specification.
use fine_db.Prelude.{◌≡◌, refl, false, none, ◌++◌, Bytes, arith}
use fine_db.Lmdb.{IsLmdb}
use fine_db.Dynabin.{IsDynabin, HasMemory}
use fine_db.Database.{database_put, database_del}
use fine_db.Database.Atomic.{CommitsSucceed}
use fine_db.Server.{Libraries, State, write_put, write_del}
use fine_db.Server.Reading.{unread, taken}
use fine_db.Server.Sending.{replied, response, stored}
use fine_db.Command.Reply.{answer}
use fine_db.Client.Serving.{serve_request-put, serve_request-del}
use fine_db.Client.Queued.{serve_request-put_async, serve_request-del_async}
use fine_db.Service.{
  put_async, del_async, put_queued, del_queued, ok_reply, put_data, del_data, encode, Fits,
}
use fine_db.Service.Changes.{put-Answers, del-Answers}
use fine_db.Service.Plain.{IsPlain, Answered, answered_state, queued_state, queued-IsPlain}

module _ (lib : Libraries) (laws : IsLmdb lib.lmdb) (doc : IsDynabin lib.dynabin)
    (memory : HasMemory lib.dynabin) where
  open laws use {committed}

  pub put_round :
      CommitsSucceed lib.lmdb laws
      → (key z rest : Bytes) (s : State lib) → Fits (put_data key z)
      → IsPlain lib laws s
      → unread lib s ≡ encode (put_data key z) ++ rest
      → Answered lib laws s (put_data key z) rest
  put_round good key z rest s fits p front =
      let r = database_put lib.lmdb none false none key z s.env in
      let out = response lib (answer r.0) false false none in
      let (b, rs, ran, left) =
        serve_request-put lib doc memory key z rest s p.healthy fits.0 fits.1 front in
      (
        replied lib (stored lib (taken lib s b rs) r.1) out,
        out,
        ground (arith, ran, p.outside, p.default),
        answered_state lib laws b rs r.1 out p,
        left,
        refl,
        put-Answers lib laws good key z s.queue s.env,
      )

  pub del_round :
      CommitsSucceed lib.lmdb laws
      → (key rest : Bytes) (s : State lib) → Fits (del_data key)
      → IsPlain lib laws s
      → unread lib s ≡ encode (del_data key) ++ rest
      → Answered lib laws s (del_data key) rest
  del_round good key rest s fits p front =
      let r = database_del lib.lmdb none none key s.env in
      let out = response lib (answer r.0) false false none in
      let (b, rs, ran, left) = serve_request-del lib doc memory key rest s p.healthy fits front in
      (
        replied lib (stored lib (taken lib s b rs) r.1) out,
        out,
        ground (arith, ran, p.outside, p.default),
        answered_state lib laws b rs r.1 out p,
        left,
        refl,
        del-Answers lib laws good key s.queue s.env,
      )

  pub put_async_round :
      (key z rest : Bytes) (s : State lib)
      → Fits (put_async key z)
      → IsPlain lib laws s
      → unread lib s ≡ encode (put_async key z) ++ rest
      → Answered lib laws s (put_async key z) rest
  put_async_round key z rest s fits p front =
      let (b, rs, ran, left) =
        serve_request-put_async lib doc memory key z rest s p.healthy p.outside p.posts fits.0
          fits.1 front in
      (
        queued_state lib laws b rs (write_put none key z false) s,
        ok_reply,
        ground (arith, ran, p.default),
        queued-IsPlain lib laws b rs (write_put none key z false) p,
        left,
        refl,
        put_queued key z,
      )

  pub del_async_round :
      (key rest : Bytes) (s : State lib)
      → Fits (del_async key)
      → IsPlain lib laws s
      → unread lib s ≡ encode (del_async key) ++ rest
      → Answered lib laws s (del_async key) rest
  del_async_round key rest s fits p front =
      let (b, rs, ran, left) =
        serve_request-del_async lib doc memory key rest s p.healthy p.outside p.posts fits front in
      (
        queued_state lib laws b rs (write_del none key) s,
        ok_reply,
        ground (arith, ran, p.default),
        queued-IsPlain lib laws b rs (write_del none key) p,
        left,
        refl,
        del_queued key,
      )
