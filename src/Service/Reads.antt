-- ===== src/Service/Reads.antt =====
-- PING and GET, beside the answers of the specification.
use fine_db.Prelude.{
  ◌⊎◌, ◌≡◌, refl, true, false, none, some, ◌++◌, Bytes, arith, inl, inr, Option, Option-cases, ap,
}
use fine_db.Yerr.{Yerr, yenoerr, yenodata, yeaccess}
use fine_db.Lmdb.{IsLmdb, Store}
use fine_db.Dynabin.{IsDynabin, HasMemory}
use fine_db.Snappy.{IsSnappy}
use fine_db.Protocol.{resp_ok}
use fine_db.Database.{database_get}
use fine_db.Database.Read.{database_get-Tells}
use fine_db.Writer.Interleaved.{get_commits_nothing}
use fine_db.Server.{Libraries, State}
use fine_db.Server.Reading.{unread, taken}
use fine_db.Server.Sending.{replied, response, stored}
use fine_db.Client.Serving.{
  serve_request-get, serve_request-ping, serve_request-get_missing, serve_request-get_failed,
}
use fine_db.Service.{
  ping_server, get_data, encode, Fits, ponged, get_found, get_missing, server_reply, bad_name_reply,
}
use fine_db.Service.Plain.{IsPlain, Answered, GetFailed, answered_state}

module _ (lib : Libraries) (laws : IsLmdb lib.lmdb) (doc : IsDynabin lib.dynabin)
    (memory : HasMemory lib.dynabin) where
  open laws use {committed}

  pub ping_round :
      (rest : Bytes) (s : State lib)
      → IsPlain lib laws s
      → unread lib s ≡ encode ping_server ++ rest
      → Answered lib laws s ping_server rest
  ping_round rest s p front =
      let out = response lib resp_ok false false none in
      let (b, rs, ran, left) = serve_request-ping lib doc memory rest s p.healthy front in
      (
        replied lib (taken lib s b rs) out,
        out,
        ran,
        answered_state lib laws b rs s.env out p,
        left,
        refl,
        ponged,
      )

  found_round :
      IsSnappy lib.snappy
      → (key z rest : Bytes) (s : State lib) → Fits (get_data key)
      → IsPlain lib laws s
      → unread lib s ≡ encode (get_data key) ++ rest
      → committed s.env none key ≡ some z
      → (database_get lib.lmdb s.unset s.transaction s.dbname key s.env).0 ≡ (yenoerr, some z)
      → Answered lib laws s (get_data key) rest
  found_round zip key z rest s fits p front there told =
      let r = database_get lib.lmdb s.unset none none key s.env in
      let out = response lib resp_ok false true (some z) in
      let (b, rs, ran, left) =
        serve_request-get lib doc memory zip key z rest s p.healthy fits front told in
      (
        replied lib (stored lib (taken lib s b rs) r.1) out,
        out,
        ground (arith, ran, p.outside, p.default),
        answered_state lib laws b rs r.1 out p,
        left,
        refl,
        rw (get_commits_nothing lib.lmdb laws s.unset none key s.env) (get_found key z there),
      )

  missing_round :
      (key rest : Bytes) (s : State lib)
      → Fits (get_data key)
      → IsPlain lib laws s
      → unread lib s ≡ encode (get_data key) ++ rest
      → committed s.env none key ≡ none
      → (database_get lib.lmdb s.unset s.transaction s.dbname key s.env).0 ≡ (yenodata, none)
      → Answered lib laws s (get_data key) rest
  missing_round key rest s fits p front missing told =
      let r = database_get lib.lmdb s.unset none none key s.env in
      let out = bad_name_reply in
      let (b, rs, ran, left) =
        serve_request-get_missing lib doc memory key rest s p.healthy fits front
          (ap (λ (x : Yerr × Option Bytes). x.0) told) in
      (
        replied lib (stored lib (taken lib s b rs) r.1) out,
        out,
        ground (arith, ran, p.outside, p.default),
        answered_state lib laws b rs r.1 out p,
        left,
        refl,
        rw (get_commits_nothing lib.lmdb laws s.unset none key s.env) (get_missing key missing),
      )

  failed_round :
      (key rest : Bytes) (s : State lib)
      → Fits (get_data key)
      → IsPlain lib laws s
      → unread lib s ≡ encode (get_data key) ++ rest
      → (database_get lib.lmdb s.unset s.transaction s.dbname key s.env).0 ≡ (yeaccess, none)
      → GetFailed lib laws s (get_data key)
  failed_round key rest s fits p front told =
      let r = database_get lib.lmdb s.unset none none key s.env in
      let (b, rs, ran) =
        serve_request-get_failed lib doc memory key rest s p.healthy fits front
          (ap (λ (x : Yerr × Option Bytes). x.0) told) in
      (
        replied lib (stored lib (taken lib s b rs) r.1) server_reply,
        key,
        refl,
        ground (arith, ran, p.outside, p.default),
        refl,
        ap (λ (d : Store). (d, s.queue)) (get_commits_nothing lib.lmdb laws s.unset none key s.env),
        record {
          no_transaction = p.outside;
          memory_lasts = p.healthy.memory;
          posts_last = p.posts;
        },
      )

  pub get_round :
      IsSnappy lib.snappy
      → (key rest : Bytes) (s : State lib) → Fits (get_data key)
      → IsPlain lib laws s
      → unread lib s ≡ encode (get_data key) ++ rest
      → Answered lib laws s (get_data key) rest ⊎ GetFailed lib laws s (get_data key)
  get_round zip key rest s fits p front =
      elim (database_get-Tells lib.lmdb laws s.unset none key s.env) [
        | inl same ↦ elim (Option-cases (committed s.env none key)) [
          | inl missing ↦ inl (
              missing_round key rest s fits p front missing
                (ground (arith, same, missing, p.outside, p.default)))
          | inr (z, there) ↦ inl (
              found_round zip key z rest s fits p front there
                (ground (arith, same, there, p.outside, p.default)))
        ]
        | inr failed ↦
            inr
              (failed_round key rest s fits p front (ground (arith, failed, p.outside, p.default)))
      ]
