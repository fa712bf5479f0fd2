-- ===== src/Server/Supply.antt =====
-- What no part of a handler can do: change the connection, or make up bytes to read.
use fine_db.Prelude.{
  ℕ, ◌+◌, ◌≤◌, ◌≡◌, ◌≢◌, refl, ap, ◌∙◌, Bool, Option, none, ◌∷◌, Bytes, length, length-drop, arith,
}
use fine_db.Exec.{◌>>=◌}
use fine_db.Exec.Keeps.{IsPreorder, Keeps}
use fine_db.Dynabin.{IsDynabin}
use fine_db.Protocol.{Response, code_byte}
use fine_db.Socket.{recvs-sendmsg}
use fine_db.Socket.Read.{read_loop, volume, read_loop-volume}
use fine_db.Server.{
  Libraries, State, WriterMsg, payload, read, connection_send_response, connection_send_ok,
  connection_send_error, ymalloc, strdup_dbname, nn_send,
}

module _ (lib : Libraries) where
  -- The bytes in the buffer and those that may still come.
  abbrev pub supply : State lib → ℕ
  supply s = length (lib.bytes s.buff) + volume s.recvs

  pub record Kept (s t : State lib) : Type 0 where
    pub same_fd : t.fd ≡ s.fd
    pub no_more : supply t ≤ supply s

  pub Kept-order : IsPreorder Kept
  Kept-order = record {
    refl_at = λ s. record { same_fd = refl; no_more = omega arith };
    trans_at = λ s t u h k. record { same_fd = k.same_fd ∙ h.same_fd; no_more = omega arith };
  }

  pub response-Kept :
      (code : Response) (serialized compressed : Bool) (x : Option Bytes)
      → Keeps Kept (connection_send_response lib code serialized compressed x)
  unfolding connection_send_response
  response-Kept code serialized compressed x = record {
    at = λ s.
        ground
          (arith, recvs-sendmsg (code_byte code serialized compressed ∷ payload lib x) s.socket);
  }

  pub ok-Kept : Keeps Kept (connection_send_ok lib)
  unfolding connection_send_ok
  ok-Kept = response-Kept _ _ _ _

  pub error-Kept : (code : Response) → Keeps Kept (connection_send_error lib code)
  unfolding connection_send_error
  error-Kept code = response-Kept _ _ _ _

  pub ymalloc-Kept : Keeps Kept (ymalloc lib)
  unfolding ymalloc ◌>>=◌
  ymalloc-Kept = record { at = λ s. ground arith }

  pub strdup-Kept : Keeps Kept (strdup_dbname lib)
  unfolding strdup_dbname ◌>>=◌
  strdup-Kept = record { at = λ s. ground arith }

  pub nn_send-Kept : (msg : WriterMsg) → Keeps Kept (nn_send lib msg)
  unfolding nn_send ◌>>=◌
  nn_send-Kept msg = record { at = λ s. ground arith }

  module _ (doc : IsDynabin lib.dynabin) where
    length-forward :
        (b : lib.Buffer) (n : ℕ)
        → n ≤ length (lib.bytes b)
        → length (lib.bytes (lib.ydynabin_forward b n)) + n ≡ length (lib.bytes b)
    length-forward b n h =
        omega (arith, ap length (doc.bytes-forward b n h), length-drop n (lib.bytes b))

    -- A read that succeeds takes its bytes from the supply.
    pub read-supply :
        (n : ℕ) (s : State lib)
        → Kept s (read lib n s).1
          × ((read lib n s).0 ≢ none → supply (read lib n s).1 + n ≤ supply s)
    unfolding read ◌>>=◌
    read-supply n s =
        let r = read_loop lib.dynabin n s.recvs s.buff in
        let (less, full) = read_loop-volume lib.dynabin doc n s.recvs s.buff in
        ground (arith, less, full, length-forward r.2 n)

    pub read-Kept : (n : ℕ) → Keeps Kept (read lib n)
    read-Kept n = record { at = λ s. (read-supply n s).0 }
