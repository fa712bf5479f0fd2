-- ===== src/Protocol/Tests.antt =====
-- Runs of the protocol's theorems at concrete bytes.
use fine_db.Prelude.{◌≡◌, ◌↔◌, ◌⊎◌, true, false, arith}
use fine_db.Protocol.{
  resp_ok, server, too_many_db, transaction, code_byte, request_add_sync, request_add_compressed,
  request_add_servtoserv,
}
use fine_db.Protocol.Options.{reading, add_one_option}
use fine_db.Protocol.Status.{reads_as_ok, reads_as_ok_iff}

-- A GET request, code 1.
add_one_option_example :
    (reading (request_add_sync 1) ≡ record (reading 1) { sync = true })
    × (reading (request_add_compressed 1) ≡ record (reading 1) { compressed = true })
    × (reading (request_add_servtoserv 1) ≡ record (reading 1) { servtoserv = true })
add_one_option_example = add_one_option 1 (omega arith)

reads_as_ok_iff_example :
    (reads_as_ok (code_byte server false true) ≡ true)
    ↔ ((server ≡ resp_ok) ⊎ (server ≡ server) ⊎ (server ≡ too_many_db) ⊎ (server ≡ transaction))
reads_as_ok_iff_example = reads_as_ok_iff server false true
