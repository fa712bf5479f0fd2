-- ===== src/Client/RoundTrip.antt =====
-- The client library and the server together: a GET.
use fine_db.Prelude.{
  drop, Bool, ap, ◌≢◌, ◌^◌, ◌<◌, ◌≤◌, ◌≡◌, refl, true, false, none, some, List, [], ◌∷◌, ◌++◌,
  Bytes, length, arith, sym, ◌∙◌, take-append_left, drop-append_left, take-append_self,
  drop-append_self, length-append, append-nil,
}
use fine_db.Yerr.{yenoerr}
use fine_db.Wire.{htonl, ntohl-htonl, length-htonl}
use fine_db.Snappy.{Snappy, IsSnappy}
use fine_db.Dynabin.{Dynabin, IsDynabin, HasMemory}
use fine_db.Protocol.{resp_ok, code_byte, response_code, response_status, request_has_compressed}
use fine_db.Socket.{Recv}
use fine_db.Socket.Read.{stream, read_loop, read_loop-enough}
use fine_db.Database.{database_get}
use fine_db.Server.{Libraries, State}
use fine_db.Server.Reading.{unread}
use fine_db.Server.Sending.{IsHealthy, response}
use fine_db.Connection.{serve_request}
use fine_db.Client.Serving.{serve_request-get}
use fine_db.Client.{Client, finedb_ok, malloc, result_of}
use fine_db.Client.Get.{
  get_request, finedb_get, get_response, fetch_value, fetch, read_data, Talk, gives, ◌>>=◌,
}
use fine_db.Client.Sends.{IsReady, send-ready}

module _ (dyn : Dynabin) (zip : Snappy) where
  abbrev arrived : Talk dyn zip → Bytes
  arrived t = dyn.bytes t.buff ++ stream t.client.recvs

  abbrev moved : Talk dyn zip → dyn.Buffer → List Recv → Talk dyn zip
  moved t b rs = record {
    client = record t.client { socket = record t.client.socket { recvs = rs } };
    buff = b;
  }

module _ (dyn : Dynabin) (zip : Snappy) (doc : IsDynabin dyn) (memory : HasMemory dyn) where
  fetch-front :
      (xs rest : Bytes) (t : Talk dyn zip)
      → t.client.sock ≢ none
      → arrived dyn zip t ≡ xs ++ rest
      → (b : dyn.Buffer) × (rs : List Recv) × (fetch dyn zip (length xs) t
          ≡ (gives xs, moved dyn zip t b rs))
        × (dyn.bytes b ++ stream rs ≡ rest)
  unfolding fetch read_data
  fetch-front xs rest t connected front =
      let n = length xs in
      let enough : n ≤ length (arrived dyn zip t) =
        rw front (omega (arith, length-append xs rest)) in
      let r = read_loop dyn n t.client.recvs t.buff in
      let (done, kept, full) = read_loop-enough dyn doc memory n t.client.recvs t.buff enough in
      (
        dyn.ydynabin_forward r.2 n,
        r.1,
        ground (
          arith,
          kept,
          front,
          take-append_left n (dyn.bytes r.2) (stream r.1) full,
          take-append_self xs rest,
        ),
        ground (
          arith,
          kept,
          front,
          doc.bytes-forward r.2 n full,
          drop-append_left n (dyn.bytes r.2) (stream r.1) full,
          drop-append_self xs rest,
        ),
      )

  fetch_value-front :
      IsSnappy zip
      → (value z rest : Bytes) (t : Talk dyn zip) → t.client.sock ≢ none
      → t.client.allocs ≡ []
      → zip.snappy_compress value ≡ some z
      → arrived dyn zip t ≡ z ++ rest
      → (fetch_value dyn zip 65 (length z) t).0 ≡ gives value
  unfolding fetch_value malloc request_has_compressed ◌>>=◌
  fetch_value-front laws value [] rest t connected free zipped front =
      absurd (laws.compress_nonempty value [] zipped refl)
  fetch_value-front laws value (x ∷ xs) rest t connected free zipped front =
      let (b, rs, ran, left) = fetch-front (x ∷ xs) rest t connected front in
      ground (arith, ran, free, laws.uncompress-compress value (x ∷ xs) zipped)

  -- For a connected client whose allocations and transmissions succeed, finedb_get returns
  -- FINEDB_OK and the value, if what it receives is RESP_OK with what Snappy made of the value, in
  -- less than 2^32 bytes and in whatever chunks.
  pub finedb_get-value :
      IsSnappy zip
      → (key value z : Bytes) (c : Client) → IsReady c
      → length z < 2 ^ 32
      → zip.snappy_compress value ≡ some z
      → stream c.recvs ≡ code_byte resp_ok false true ∷ (htonl (length z) ++ z)
      → let r = finedb_get dyn zip key c in r.0 ≡ (finedb_ok, some value)
  unfolding finedb_get get_response code_byte response_code result_of response_status ◌>>=◌
  finedb_get-value laws key value z c h short zipped front =
      let t : Talk dyn zip = record {
        client = record c { socket = record c.socket { sent = c.sent ++ get_request key } };
        buff = dyn.ydynabin_new;
      } in
      let (b1, rs1, ran1, left1) =
        fetch-front (65 ∷ []) (htonl (length z) ++ z) t h.connected
          (ground (arith, doc.bytes-new, front)) in
      let t1 = moved dyn zip t b1 rs1 in
      let (b2, rs2, ran2, left2) = fetch-front (htonl (length z)) z t1 h.connected left1 in
      let t2 = moved dyn zip t1 b2 rs2 in
      let found =
        fetch_value-front laws value z [] t2 h.connected h.memory zipped
          (left2 ∙ sym (append-nil z)) in
      ground (
        arith,
        send-ready (get_request key) c h,
        ran1,
        ran2,
        found,
        length-htonl (length z),
        ntohl-htonl (length z) short,
      )

same_rest : (xs ys zs : Bytes) → xs ++ ys ≡ xs ++ zs → ys ≡ zs
same_rest xs ys zs h =
    sym (drop-append_self xs ys) ∙ ap (drop (length xs)) h ∙ drop-append_self xs zs

module _ (lib : Libraries) (doc : IsDynabin lib.dynabin) (memory : HasMemory lib.dynabin) where
  -- A GET from end to end, where the server's and the client's own allocations and transmissions
  -- succeed and what they use of the network is connected: if database_get finds under a key
  -- shorter than 2^16 what Snappy made of a value, in less than 2^32 bytes, and the client
  -- receives what the server sends for the client's request, in whatever chunks either of them
  -- arrives, then finedb_get returns FINEDB_OK and that value.
  pub get_round_trip :
      IsSnappy lib.snappy
      → (key value z rest reply : Bytes) (s : State lib) (c : Client) → IsHealthy lib s
      → IsReady c
      → length key < 2 ^ 16
      → length z < 2 ^ 32
      → lib.snappy_compress value ≡ some z
      → (database_get lib.lmdb s.unset s.transaction s.dbname key s.env).0 ≡ (yenoerr, some z)
      → unread lib s ≡ get_request key ++ rest
      → (serve_request lib s).1.sent ≡ s.sent ++ reply
      → stream c.recvs ≡ reply
      → (finedb_get lib.dynabin lib.snappy key c).0 ≡ (finedb_ok, some value)
  get_round_trip zip key value z rest reply s c h ready short_key short_z zipped there asked sent
        received =
      let (b, rs, ran, left) =
        serve_request-get lib doc memory zip key z rest s h short_key asked there in
      let same =
        same_rest s.sent (response lib resp_ok false true (some z)) reply
          (ap (λ (r : Bool × State lib). r.1.sent) (sym ran) ∙ sent) in
      finedb_get-value lib.dynabin lib.snappy doc memory zip key value z c ready short_z zipped
        (received ∙ sym same)
