-- ===== src/Command/Selects.antt =====
-- What a complete SETDB request does, whatever the chunks in which it arrives.
use fine_db.Prelude.{◌≡◌, refl, Bool, false, none, some, List, [], ◌∷◌, ◌++◌, Bytes, length, arith}
use fine_db.Yerr.{yenoerr}
use fine_db.Exec.{◌>>=◌, label}
use fine_db.Wire.{c_string}
use fine_db.Lmdb.{Name}
use fine_db.Dynabin.{IsDynabin, HasMemory}
use fine_db.Protocol.{resp_ok}
use fine_db.Socket.{Recv}
use fine_db.Socket.Read.{stream}
use fine_db.Server.{Libraries, State}
use fine_db.Server.Reading.{unread, taken, read-front}
use fine_db.Server.Sending.{
  IsHealthy, taken-IsHealthy, replied, response, send_ok-healthy, ymalloc-healthy,
}
use fine_db.Command.Setdb.{command_setdb, read_dbname, set_dbname}

-- What a name on the wire selects.
abbrev pub selected : Bytes → Name
selected [] = none
selected (x ∷ xs) = some (c_string (x ∷ xs))

module _ (lib : Libraries) where
  abbrev pub named : State lib → Name → State lib
  named s n = record s { thread = record s.thread { dbname = n } }

  named-IsHealthy : {s : State lib} (n : Name) → IsHealthy lib s → IsHealthy lib (named s n)
  named-IsHealthy n h = record { connected = h.connected; memory = h.memory; line = h.line }

module _ (lib : Libraries) (doc : IsDynabin lib.dynabin) (memory : HasMemory lib.dynabin) where
  read_dbname-front :
      (name rest : Bytes) (s : State lib)
      → IsHealthy lib s
      → s.dbname ≡ none
      → unread lib s ≡ name ++ rest
      → (b : lib.Buffer) × (rs : List Recv) × (read_dbname lib (length name) s
          ≡ (some tt, named lib (taken lib s b rs) (selected name)))
        × (lib.bytes b ++ stream rs ≡ rest)
  unfolding read_dbname set_dbname ◌>>=◌
  read_dbname-front [] rest s h fresh front = (s.buff, s.recvs, ground (arith, fresh), front)
  read_dbname-front (x ∷ xs) rest s h fresh front =
      let (b, rs, ran, left) = read-front lib doc memory (x ∷ xs) rest s h.connected front in
      (b, rs, ground (arith, ran, ymalloc-healthy lib (taken lib s b rs) h.memory), left)

  -- On a connection whose allocations and transmissions succeed, a complete SETDB is answered by
  -- RESP_OK and selects the database of its name, read as a C string, or the default one if the
  -- name is empty; it takes just its own bytes and leaves the environment and the transaction as
  -- they are.
  pub command_setdb-selects :
      (sync compress serialized : Bool) (name rest : Bytes) (s : State lib)
      → IsHealthy lib s
      → unread lib s ≡ length name ∷ (name ++ rest)
      → (b : lib.Buffer) × (rs : List Recv) × (command_setdb lib sync compress serialized s ≡ (
        yenoerr,
        replied lib
            (named lib (taken lib s b rs) (selected name))
            (response lib resp_ok false false none),
      ))
        × (lib.bytes b ++ stream rs ≡ rest)
  unfolding command_setdb set_dbname ◌>>=◌ label
  command_setdb-selects sync compress serialized name rest s h front =
      let (b1, rs1, ran1, left1) =
        read-front lib doc memory (length name ∷ []) (name ++ rest) s h.connected front in
      let s1 = named lib (taken lib s b1 rs1) none in
      let h1 = named-IsHealthy lib none (taken-IsHealthy lib b1 rs1 h) in
      let (b, rs, ran, left) = read_dbname-front name rest s1 h1 refl left1 in
      let s2 = named lib (taken lib s b rs) (selected name) in
      let h2 = named-IsHealthy lib (selected name) (taken-IsHealthy lib b rs h) in
      (b, rs, ground (arith, ran1, ran, send_ok-healthy lib s2 h2), left)
