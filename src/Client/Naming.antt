-- ===== src/Client/Naming.antt =====
-- What the server does with a SETDB request of the client library.
use fine_db.Prelude.{
  ℕ, ◌%◌, ◌≡◌, refl, sym, ap, ◌∙◌, true, false, none, some, List, [], ◌∷◌, ◌++◌, Bytes, length,
  take, drop, arith, length-take, append_assoc, zero, suc, ◌||◌,
}
use fine_db.Wire.{c_string}
use fine_db.Dynabin.{IsDynabin, HasMemory}
use fine_db.Protocol.{
  Command, resp_ok, command_code, request_command, request_has_sync, request_has_compressed,
  request_has_serialized,
}
use fine_db.Socket.{Recv}
use fine_db.Socket.Read.{stream}
use fine_db.Server.{Libraries, State}
use fine_db.Server.Reading.{unread, taken, read-front}
use fine_db.Server.Sending.{IsHealthy, replied, response, taken-IsHealthy}
use fine_db.Command.Selects.{command_setdb-selects, selected, named}
use fine_db.Connection.{serve_request, on_request, execute, commands, is_some}
use fine_db.Client.{setdb_fields}

take-drop : (n : ℕ) (xs : Bytes) → take n xs ++ drop n xs ≡ xs
take-drop zero xs = refl
take-drop (suc n) [] = refl
take-drop (suc n) (x ∷ xs) = ap (λ (ys : Bytes). x ∷ ys) (take-drop n xs)

abbrev pub setdb_request : Bytes → Bytes
setdb_request name = command_code Command.setdb ∷ setdb_fields (some name)

-- The length byte of a name.
abbrev pub sent_length : Bytes → ℕ
sent_length name = length (c_string name) % 256

setdb_request-fields :
    (name rest : Bytes)
    → let n = sent_length name in
      setdb_request name ++ rest
      ≡ 4
        ∷ (length (take n (c_string name))
            ∷ (take n (c_string name) ++ (drop n (c_string name) ++ rest)))
unfolding command_code
setdb_request-fields name rest =
    let xs = c_string name in
    let n = sent_length name in
    let size : length (take n xs) ≡ n = omega (arith, length-take n xs) in
    rw (size, sym (append_assoc (take n xs) (drop n xs) rest), take-drop n xs) refl

module _ (lib : Libraries) (doc : IsDynabin lib.dynabin) (memory : HasMemory lib.dynabin) where
  -- On a connection whose allocations and transmissions succeed, a SETDB of the client library, in
  -- whatever chunks it arrives, is answered by RESP_OK and selects the database of the name, or the
  -- default one if no byte of the name is taken: as many bytes of it are taken as its length leaves
  -- modulo 256. The bytes that are not taken are left for the loop on requests to read.
  pub serve_request-setdb :
      (name rest : Bytes) (s : State lib)
      → IsHealthy lib s
      → unread lib s ≡ setdb_request name ++ rest
      → let n = sent_length name in
        (b : lib.Buffer) × (rs : List Recv) × (serve_request lib s ≡ (
          true,
          replied lib
              (named lib (taken lib s b rs) (selected (take n (c_string name))))
              (response lib resp_ok false false none),
        ))
        × (lib.bytes b ++ stream rs ≡ drop n (c_string name) ++ rest)
  unfolding serve_request on_request execute commands request_command request_has_sync
      request_has_compressed request_has_serialized
  serve_request-setdb name rest s h front =
      let n = sent_length name in
      let xs = take n (c_string name) in
      let behind = drop n (c_string name) ++ rest in
      let (b1, rs1, ran1, left1) =
        read-front lib doc memory (4 ∷ []) (length xs ∷ (xs ++ behind)) s h.connected
          (front ∙ setdb_request-fields name rest) in
      let s1 = taken lib s b1 rs1 in
      let (b, rs, ran, left) =
        command_setdb-selects lib doc memory (is_some lib s.transaction || request_has_sync 4) false
          false xs behind s1 (taken-IsHealthy lib b1 rs1 h) left1 in
      (b, rs, ground (arith, ran1, ran), left)
