-- ===== src/Service.antt =====
-- What a FineDB server promises to a client that sends requests to the default database, outside a
-- transaction: a specification over the stored data and the messages for the writer thread, without
-- buffers, sockets and LMDB.
pub mod Changes
pub mod Plain
pub mod Writes
pub mod Reads
pub mod Rounds
pub mod Cut
pub mod Refines
pub mod Settles
pub mod Interleaving
pub mod Concurrent
pub mod Turns
pub mod Torn
pub mod Linearizes
pub mod Progress
pub mod Snapshot
pub mod Refused
mod Tests
mod SnapshotTests
mod RefusedTests
mod LinearizesTests
use fine_db.Prelude.{
  ℕ, ◌^◌, ◌<◌, ◌≡◌, ◌≢◌, ◌⊎◌, true, false, Option, none, some, List, [], ◌∷◌, ◌++◌, Bytes, length,
}
use fine_db.Wire.{htonl}
use fine_db.Lmdb.{Store, insert, erase}
use fine_db.Protocol.{Command, command_code, resp_ok, bad_name, server, code_byte}
use fine_db.Server.{WriterMsg, write_put, write_del}
use fine_db.Socket.{Socket}
use fine_db.Socket.Read.{stream}
use fine_db.Client.{put_request, del_request}
use fine_db.Client.Get.{get_request}

-- The data of a PUT is what the client library sends, compressed.
pub data Request : Type 0 where
  ping_server : Request
  put_data put_async : Bytes → Bytes → Request
  get_data del_data del_async : Bytes → Request

-- The bytes that the client library sends.
abbrev pub encode : Request → Bytes
encode ping_server = command_code Command.ping ∷ []
encode (put_data key z) = put_request true key z
encode (put_async key z) = put_request false key z
encode (get_data key) = get_request key
encode (del_data key) = del_request true key
encode (del_async key) = del_request false key

abbrev pub encode_all : List Request → Bytes
encode_all [] = []
encode_all (r ∷ rs) = encode r ++ encode_all rs

-- The fields fit the lengths of the protocol.
abbrev pub Fits : Request → Type 0
Fits ping_server = Unit {0}
Fits (put_data key z) = (length key < 2 ^ 16) × (length z < 2 ^ 32)
Fits (put_async key z) = (length key < 2 ^ 16) × (length z < 2 ^ 32)
Fits (get_data key) = length key < 2 ^ 16
Fits (del_data key) = length key < 2 ^ 16
Fits (del_async key) = length key < 2 ^ 16

abbrev pub AllFit : List Request → Type 0
AllFit [] = Unit {0}
AllFit (r ∷ rs) = Fits r × AllFit rs

abbrev pub ok_reply : Bytes
ok_reply = code_byte resp_ok false false ∷ []

abbrev pub bad_name_reply : Bytes
bad_name_reply = code_byte bad_name false false ∷ []

abbrev pub server_reply : Bytes
server_reply = code_byte server false false ∷ []

abbrev pub value_reply : Bytes → Bytes
value_reply z = code_byte resp_ok false true ∷ (htonl (length z) ++ z)

-- The committed data, and the messages that the writer thread has not taken.
abbrev pub Contents : Type 0
Contents = Store × List WriterMsg

-- A request is answered: the contents before, the reply, the contents after. A change may be refused,
-- and is then not made; one that the client does not wait for is left to the writer thread.
pub data Answers (c : Contents) : Request → Bytes → Contents → Type 0 where
  ponged : Answers c ping_server ok_reply c
  put_done : (key z : Bytes) → Answers c (put_data key z) ok_reply (insert none key z c.0, c.1)
  put_refused : (key z : Bytes) → Answers c (put_data key z) bad_name_reply c
  put_queued :
      (key z : Bytes)
      → Answers c (put_async key z) ok_reply (c.0, c.1 ++ write_put none key z false ∷ [])
  del_done :
      (key : Bytes)
      → c.0 none key ≢ none
      → Answers c (del_data key) ok_reply (erase none key c.0, c.1)
  del_refused : (key : Bytes) → Answers c (del_data key) bad_name_reply c
  del_queued :
      (key : Bytes) → Answers c (del_async key) ok_reply (c.0, c.1 ++ write_del none key ∷ [])
  get_found : (key z : Bytes) → c.0 none key ≡ some z → Answers c (get_data key) (value_reply z) c
  get_missing : (key : Bytes) → c.0 none key ≡ none → Answers c (get_data key) bad_name_reply c

-- What a client says on a connection: requests, and the part of one more that comes before the
-- connection breaks.
pub record Talk : Type 0 where
  pub whole : List Request
  pub part : Bytes

-- Nothing, or the beginning of a request without its end.
abbrev pub Unfinished : Bytes → Type 0
Unfinished part =
    (part ≡ [])
    ⊎ ((r : Request) × (missing : Bytes) × Fits r × (missing ≢ []) × (part ++ missing ≡ encode r))

-- The requests of a connection are answered in their order, unless a GET fails, which ends it. A part
-- of a request changes nothing.
pub data Serves (part : Bytes) : Contents → List Request → Bytes → Contents → Type 0 where
  all_served : {s : Contents} → part ≡ [] → Serves part s [] [] s
  cut_off : {s : Contents} → part ≢ [] → Serves part s [] server_reply s
  answered :
      {s t u : Contents} {r : Request} {rs : List Request} {out more : Bytes}
      → Answers s r out t
      → Serves part t rs more u
      → Serves part s (r ∷ rs) (out ++ more) u
  get_failed :
      {s : Contents} {rs : List Request} (key : Bytes)
      → Serves part s (get_data key ∷ rs) server_reply s

-- Connections are served one after the other.
pub data ServesAll : Contents → List Talk → List Bytes → Contents → Type 0 where
  all_done : {s : Contents} → ServesAll s [] [] s
  connection :
      {s t u : Contents} {talk : Talk} {all : List Talk} {out : Bytes} {outs : List Bytes}
      → Serves talk.part s talk.whole out t
      → ServesAll t all outs u
      → ServesAll s (talk ∷ all) (out ∷ outs) u

-- The connections of a thread, one after the other, and what is said on each.
abbrev pub Sends : ℕ → List (Option (ℕ × Socket)) → List Talk → Type 0
Sends fuel [] [] = Unit {0}
Sends fuel (none ∷ more) all = Sends fuel more all
Sends fuel (some (fd, sock) ∷ more) (talk ∷ all) =
    AllFit talk.whole
    × Unfinished talk.part
    × (sock.sends ≡ [])
    × (sock.sent ≡ [])
    × (stream sock.recvs ≡ encode_all talk.whole ++ talk.part)
    × (length talk.whole < fuel)
    × Sends fuel more all
Sends fuel _ _ = ⊥
