-- ===== src/Command/Keys.antt =====
-- How the handlers read a key, whatever the chunks in which it arrives.
use fine_db.Prelude.{◌^◌, ◌<◌, ◌≡◌, refl, true, false, none, some, List, ◌++◌, Bytes, length, arith}
use fine_db.Yerr.{Yerr, yenoerr}
use fine_db.Exec.{◌>>=◌}
use fine_db.Wire.{htons, ntohs-htons, length-htons}
use fine_db.Dynabin.{IsDynabin, HasMemory}
use fine_db.Protocol.{resp_ok}
use fine_db.Socket.{Recv}
use fine_db.Socket.Read.{stream}
use fine_db.Server.{Libraries, State}
use fine_db.Server.Reading.{unread, taken, read-front}
use fine_db.Server.Sending.{
  IsHealthy, replied, response, send_ok-healthy, send_response-healthy, ymalloc-healthy,
}
use fine_db.Command.Reply.{respond_early, respond, read_key, answer}

-- A key as the client sends it.
abbrev pub key_field : Bytes → Bytes
key_field key = htons (length key) ++ key

module _ (lib : Libraries) where
  pub early-sync : (s : State lib) → respond_early lib true s ≡ (some tt, s)
  unfolding respond_early ◌>>=◌
  early-sync s = refl

  pub early-async :
      (s : State lib)
      → IsHealthy lib s
      → respond_early lib false s ≡ (some tt, replied lib s (response lib resp_ok false false none))
  unfolding respond_early ◌>>=◌
  early-async s h = ground (arith, send_ok-healthy lib s h)

  pub respond-healthy :
      (code : Yerr) (s : State lib)
      → IsHealthy lib s
      → respond lib code s
        ≡ (some yenoerr, replied lib s (response lib (answer code) false false none))
  unfolding respond ◌>>=◌
  respond-healthy code s h =
      ground (arith, send_response-healthy lib (answer code) false false none s h)

module _ (lib : Libraries) (doc : IsDynabin lib.dynabin) (memory : HasMemory lib.dynabin) where
  -- The length and the key are read and nothing else, if the key is shorter than 2^16.
  pub read_key-front :
      (key rest : Bytes) (s : State lib)
      → IsHealthy lib s
      → length key < 2 ^ 16
      → unread lib s ≡ htons (length key) ++ (key ++ rest)
      → (b : lib.Buffer) × (rs : List Recv) × (read_key lib s ≡ (some key, taken lib s b rs))
        × (lib.bytes b ++ stream rs ≡ rest)
  unfolding read_key ◌>>=◌
  read_key-front key rest s h short front =
      let (b1, rs1, ran1, left1) =
        read-front lib doc memory (htons (length key)) (key ++ rest) s h.connected front in
      let s1 = taken lib s b1 rs1 in
      let (b2, rs2, ran2, left2) = read-front lib doc memory key rest s1 h.connected left1 in
      (
        b2,
        rs2,
        ground (
          arith,
          ran1,
          ran2,
          length-htons (length key),
          ntohs-htons (length key) short,
          ymalloc-healthy lib (taken lib s b2 rs2) h.memory,
        ),
        left2,
      )
