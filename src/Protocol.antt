-- ===== src/Protocol.antt =====
-- The protocol's constants and bit macros: src/server/protocol.h. Bytes are numbers below 256.
pub mod Status
pub mod Options
mod Tests
use fine_db.Prelude.{ℕ, Bool, not, bit_and, bit_or, ◌==◌, if◌then◌else◌}

-- The low four bits of a request that the server knows.
pub data Command : Type 0 where
  ping get del put setdb start stop admin extra : Command

unfoldable pub command_code : Command → ℕ
command_code Command.ping = 0x0
command_code Command.get = 0x1
command_code Command.del = 0x2
command_code Command.put = 0x3
command_code Command.setdb = 0x4
command_code Command.start = 0x5
command_code Command.stop = 0x6
command_code Command.admin = 0xe
command_code Command.extra = 0xf

abbrev pub opt_sync : ℕ
opt_sync = 0x10

abbrev pub opt_serialized : ℕ
opt_serialized = 0x20

abbrev pub opt_compressed : ℕ
opt_compressed = 0x40

abbrev pub opt_servtoserv : ℕ
opt_servtoserv = 0x80

pub data Response : Type 0 where
  undefined resp_ok protocol server full_db too_many_db bad_name transaction : Response

unfoldable pub response_code : Response → ℕ
response_code Response.undefined = 0
response_code Response.resp_ok = 1
response_code Response.protocol = 2
response_code Response.server = 3
response_code Response.full_db = 4
response_code Response.too_many_db = 5
response_code Response.bad_name = 6
response_code Response.transaction = 7

-- C's truth value of `c & mask`.
abbrev has : ℕ → ℕ → Bool
has mask c = not (bit_and c mask == 0)

unfoldable pub request_command : ℕ → ℕ
request_command c = bit_and c 0xf

unfoldable pub request_has_sync : ℕ → Bool
request_has_sync c = has opt_sync c

unfoldable pub request_has_serialized : ℕ → Bool
request_has_serialized c = has opt_serialized c

unfoldable pub request_has_compressed : ℕ → Bool
request_has_compressed c = has opt_compressed c

unfoldable pub request_has_servtoserv : ℕ → Bool
request_has_servtoserv c = has opt_servtoserv c

unfoldable pub response_add_serialized : ℕ → ℕ
response_add_serialized c = bit_or c opt_serialized

unfoldable pub response_add_compressed : ℕ → ℕ
response_add_compressed c = bit_or c opt_compressed

unfoldable pub request_add_sync : ℕ → ℕ
request_add_sync c = bit_or c opt_sync

unfoldable pub request_add_compressed : ℕ → ℕ
request_add_compressed c = bit_or c opt_compressed

unfoldable pub request_add_servtoserv : ℕ → ℕ
request_add_servtoserv c = bit_or c opt_servtoserv

unfoldable pub response_status : ℕ → ℕ
response_status c = bit_and c 1

unfoldable pub response_error : ℕ → ℕ
response_error c = bit_and c 0x1e

-- The code byte that `connection_send_response` builds (lines 200 to 204).
unfoldable pub code_byte : Response → Bool → Bool → ℕ
unfolding response_code response_add_serialized response_add_compressed
code_byte code serialized compressed =
    let plain = response_code code in
    let marked = if serialized then response_add_serialized plain else plain in
    if compressed then response_add_compressed marked else marked
