-- ===== src/Protocol/Status.antt =====
-- What the client's status test makes of the server's response codes.
use fine_db.Prelude.{ℕ, ◌≡◌, refl, ◌↔◌, ◌⊎◌, Bool, true, false, ◌==◌, arith}
use fine_db.Protocol.{
  Response, undefined, resp_ok, server, too_many_db, transaction, response_code, response_status,
  code_byte,
}

-- The test of the client library, `RESPONSE_STATUS(code) != RESP_OK`, negated.
unfoldable pub reads_as_ok : ℕ → Bool
unfolding response_status response_code
reads_as_ok c = response_status c == response_code resp_ok

odd : Response → Bool
odd resp_ok = true
odd server = true
odd too_many_db = true
odd transaction = true
odd _ = false

bit-code_byte :
    (r : Response) (serialized compressed : Bool)
    → reads_as_ok (code_byte r serialized compressed) ≡ odd r
unfolding reads_as_ok code_byte odd
bit-code_byte undefined true true = refl
bit-code_byte undefined true false = refl
bit-code_byte undefined false true = refl
bit-code_byte undefined false false = refl
bit-code_byte _ true true = refl
bit-code_byte _ true false = refl
bit-code_byte _ false true = refl
bit-code_byte _ false false = refl

-- Whatever the option bits, the client takes a response for a success exactly when its code is odd:
-- not only RESP_OK, but the errors SERVER, TOO_MANY_DB and TRANSACTION too.
pub reads_as_ok_iff :
    (r : Response) (serialized compressed : Bool)
    → (reads_as_ok (code_byte r serialized compressed) ≡ true)
      ↔ ((r ≡ resp_ok) ⊎ (r ≡ server) ⊎ (r ≡ too_many_db) ⊎ (r ≡ transaction))
unfolding odd
reads_as_ok_iff r serialized compressed = ground (arith, bit-code_byte r serialized compressed)
