-- ===== src/Server/Sample.antt =====
-- Concrete libraries and states, on which the tests run the server.
use fine_db.Prelude.{refl, false, Option, none, some, List, [], ◌∷◌, Bytes, arith}
use fine_db.Lmdb.Sample.{sample, empty_disk}
use fine_db.Dynabin.{IsDynabin, HasMemory, list_dynabin}
use fine_db.Snappy.{Snappy, IsSnappy}
use fine_db.Socket.{Recv}
use fine_db.Server.{Libraries, State}
use fine_db.Server.Sending.{IsHealthy}

pub list-IsDynabin : IsDynabin list_dynabin
list-IsDynabin = record {
  bytes-new = refl;
  bytes-expand = λ b c xs h. ground arith;
  bytes-forward = λ b n h. refl;
}

pub list-HasMemory : HasMemory list_dynabin
list-HasMemory b xs = (_, refl)

-- A compression that puts one byte in front.
abbrev unmark : Bytes → Option Bytes
unmark [] = none
unmark (x ∷ xs) = some xs

abbrev pub marking : Snappy
marking = record { snappy_compress = λ xs. some (0 ∷ xs); snappy_uncompress = unmark }

pub marking-IsSnappy : IsSnappy marking
marking-IsSnappy = record {
  uncompress-compress = λ xs zs h. ground arith;
  compress_nonempty = λ xs zs h. ground arith;
}

abbrev pub libraries : Libraries
libraries = record { lmdb = sample false; dynabin = list_dynabin; snappy = marking }

-- A connection whose client has sent these chunks, on an empty database.
abbrev pub begun : List Recv → State libraries
begun chunks = record {
  thread = record { fd = some 4; dbname = none; transaction = none };
  buff = [];
  socket = record { recvs = chunks; sends = []; sent = [] };
  env = empty_disk;
  queue = [];
  allocs = [];
  pushes = [];
  unset = none;
}

pub begun-IsHealthy : (chunks : List Recv) → IsHealthy libraries (begun chunks)
begun-IsHealthy chunks = record {
  connected = λ h. absurd (ground arith);
  memory = refl;
  line = refl;
}
