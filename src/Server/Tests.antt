-- ===== src/Server/Tests.antt =====
-- Runs of the reading of requests.
use fine_db.Prelude.{refl, some, List, ◌≡◌, [], ◌∷◌, arith, Bytes, ◌++◌}
use fine_db.Socket.{Recv, received}
use fine_db.Socket.Read.{stream, read_loop}
use fine_db.Exec.{◌>>=◌}
use fine_db.Server.{read}
use fine_db.Server.Reading.{taken, read-take}
use fine_db.Server.Sample.{libraries, begun, list-IsDynabin, list-HasMemory}

-- Five bytes in two chunks.
abbrev chunks : List Recv
chunks = received (1 ∷ 2 ∷ []) ∷ received (3 ∷ 4 ∷ 5 ∷ []) ∷ []

three : (read libraries 3 (begun chunks)).0 ≡ some (1 ∷ 2 ∷ 3 ∷ [])
unfolding read ◌>>=◌ read_loop
three = refl

read-take_example :
    (b : Bytes) × (rs : List Recv) × (read libraries 3 (begun chunks)
      ≡ (some (1 ∷ 2 ∷ 3 ∷ []), taken libraries (begun chunks) b rs))
    × (b ++ stream rs ≡ 4 ∷ 5 ∷ [])
unfolding stream
read-take_example =
    read-take libraries list-IsDynabin list-HasMemory 3 (begun chunks) (λ h. absurd (ground arith))
      (omega arith)
