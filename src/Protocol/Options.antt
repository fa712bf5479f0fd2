-- ===== src/Protocol/Options.antt =====
-- The option bits of a request, written by the client and read by the server.
use fine_db.Prelude.{
  ℕ, ◌<◌, ◌≡◌, refl, Bool, true, false, not, ◌&&◌, ◌==◌, passes, passes_each, arith,
}
use fine_db.Protocol.{
  request_command, request_has_sync, request_has_serialized, request_has_compressed,
  request_has_servtoserv, request_add_sync, request_add_compressed, request_add_servtoserv,
}

abbrev bool_eq : Bool → Bool → Bool
bool_eq true b = b
bool_eq false b = not b

bool_eq→eq : (a b : Bool) → bool_eq a b ≡ true → a ≡ b
bool_eq→eq a b h = ground arith

-- What a server reads from a request byte: the command, sync, serialized, compressed and
-- server-to-server.
pub record Reading : Type 0 where
  pub command : ℕ
  pub sync : Bool
  pub serialized : Bool
  pub compressed : Bool
  pub servtoserv : Bool

abbrev pub reading : ℕ → Reading
reading c = record {
  command = request_command c;
  sync = request_has_sync c;
  serialized = request_has_serialized c;
  compressed = request_has_compressed c;
  servtoserv = request_has_servtoserv c;
}

abbrev same : Reading → Reading → Bool
same r s =
    r.command == s.command
    && bool_eq r.sync s.sync
    && bool_eq r.serialized s.serialized
    && bool_eq r.compressed s.compressed
    && bool_eq r.servtoserv s.servtoserv

same→eq : (r s : Reading) → same r s ≡ true → r ≡ s
same→eq r s h = ground (
  arith,
  bool_eq→eq r.sync s.sync,
  bool_eq→eq r.serialized s.serialized,
  bool_eq→eq r.compressed s.compressed,
  bool_eq→eq r.servtoserv s.servtoserv,
)

abbrev keeps_rest : (ℕ → ℕ) → (Reading → Reading) → ℕ → Bool
keeps_rest add mark c = same (reading (add c)) (mark (reading c))

sync_table : passes (keeps_rest request_add_sync (λ r. record r { sync = true })) 0 256 ≡ true
unfolding passes request_command request_has_sync request_has_serialized request_has_compressed
    request_has_servtoserv request_add_sync
sync_table = refl

compressed_table :
    passes (keeps_rest request_add_compressed (λ r. record r { compressed = true })) 0 256 ≡ true
unfolding passes request_command request_has_sync request_has_serialized request_has_compressed
    request_has_servtoserv request_add_compressed
compressed_table = refl

servtoserv_table :
    passes (keeps_rest request_add_servtoserv (λ r. record r { servtoserv = true })) 0 256 ≡ true
unfolding passes request_command request_has_sync request_has_serialized request_has_compressed
    request_has_servtoserv request_add_servtoserv
servtoserv_table = refl

-- For every byte, each macro that adds sync, compressed or server-to-server sets that option and
-- changes neither the command nor any other option that the server reads.
pub add_one_option :
    (c : ℕ)
    → c < 256
    → (reading (request_add_sync c) ≡ record (reading c) { sync = true })
      × (reading (request_add_compressed c) ≡ record (reading c) { compressed = true })
      × (reading (request_add_servtoserv c) ≡ record (reading c) { servtoserv = true })
add_one_option c h = (
  same→eq _ _ (passes_each _ 0 256 c (omega arith) (omega arith) sync_table),
  same→eq _ _ (passes_each _ 0 256 c (omega arith) (omega arith) compressed_table),
  same→eq _ _ (passes_each _ 0 256 c (omega arith) (omega arith) servtoserv_table),
)
