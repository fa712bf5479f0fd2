-- ===== src/Command/Failures.antt =====
-- Requests that do not arrive whole, and messages that the writer thread does not get.
use fine_db.Prelude.{ap, ℕ, ◌^◌, ◌<◌, ◌≡◌, Bool, false, none, List, ◌∷◌, ◌++◌, Bytes, length, arith}
use fine_db.Yerr.{yeio}
use fine_db.Exec.{◌>>=◌, label}
use fine_db.Wire.{htons, length-htons, ntohs-htons}
use fine_db.Dynabin.{IsDynabin, HasMemory}
use fine_db.Protocol.{resp_ok, server}
use fine_db.Socket.{Recv}
use fine_db.Server.{Libraries, State, nn_send, write_del}
use fine_db.Server.Reading.{unread, taken, read-front, read-short, read-only}
use fine_db.Server.Sending.{
  IsHealthy, server_error-healthy, replied, response, taken-IsHealthy, ymalloc-healthy,
  strdup-healthy,
}
use fine_db.Command.Reply.{read_key}
use fine_db.Command.Keys.{early-async, read_key-front}
use fine_db.Command.Del.{command_del, del_later}

module _ (lib : Libraries) where
  nn_send-fails :
      (s : State lib) (later : List Bool)
      → s.pushes ≡ false ∷ later
      → (msg : _) → nn_send lib msg s ≡ (none, record s { pushes = later })
  unfolding nn_send ◌>>=◌
  nn_send-fails s later h msg = ground arith

module _ (lib : Libraries) (doc : IsDynabin lib.dynabin) (memory : HasMemory lib.dynabin) where
  -- On a connection whose transmissions succeed, a DEL whose key is longer than what the client
  -- sends behind its length is answered by RESP_ERR_SERVER and ends the connection; the database
  -- and the queue are not touched.
  pub command_del-truncated :
      (sync compress serialized : Bool) (size : ℕ) (part : Bytes) (s : State lib)
      → IsHealthy lib s
      → size < 2 ^ 16
      → length part < size
      → unread lib s ≡ htons size ++ part
      → (b : lib.Buffer) × (rs : List Recv) × (command_del lib sync compress serialized s
          ≡ (yeio, replied lib (taken lib s b rs) (response lib server false false none)))
  unfolding command_del read_key ◌>>=◌ label
  command_del-truncated sync compress serialized size part s h short less front =
      let (b1, rs1, ran1, left1) =
        read-front lib doc memory (htons size) part s h.connected front in
      let s1 = taken lib s b1 rs1 in
      let (b, rs, same) = read-only lib size s1 in
      let gone = read-short lib doc memory size s1 (omega (arith, ap length left1)) in
      (
        b,
        rs,
        ground (
          arith,
          ran1,
          same,
          gone,
          length-htons size,
          ntohs-htons size short,
          server_error-healthy lib (taken lib s b rs) (taken-IsHealthy lib b rs h),
        ),
      )

  -- On a connection whose allocations and transmissions succeed, a complete asynchronous DEL whose
  -- message the writer thread does not get is answered twice, by RESP_OK and then by
  -- RESP_ERR_SERVER; the connection ends, and neither the database nor the queue has changed.
  pub command_del-twice :
      (compress serialized : Bool) (key rest : Bytes) (later : List Bool) (s : State lib)
      → IsHealthy lib s
      → s.pushes ≡ false ∷ later
      → length key < 2 ^ 16
      → unread lib s ≡ htons (length key) ++ (key ++ rest)
      → let r = command_del lib false compress serialized s in
        (r.0 ≡ yeio)
        × (r.1.sent
            ≡ (s.sent ++ response lib resp_ok false false none)
              ++ response lib server false false none)
        × (r.1.queue ≡ s.queue)
        × (r.1.env ≡ s.env)
  unfolding command_del del_later ◌>>=◌ label
  command_del-twice compress serialized key rest later s h pushes short front =
      let (b, rs, ran, left) = read_key-front lib doc memory key rest s h short front in
      let s1 = taken lib s b rs in
      let h1 = taken-IsHealthy lib b rs h in
      let s2 = replied lib s1 (response lib resp_ok false false none) in
      let s3 : State lib = record s2 { pushes = later } in
      let h3 : IsHealthy lib s3 = record {
        connected = h.connected;
        memory = h.memory;
        line = h.line;
      } in
      ground (
        arith,
        ran,
        early-async lib s1 h1,
        ymalloc-healthy lib s2 h.memory,
        strdup-healthy lib s2 h.memory,
        nn_send-fails lib s2 later pushes (write_del s.dbname key),
        server_error-healthy lib s3 h3,
      )
