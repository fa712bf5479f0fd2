-- ===== src/Snappy.antt =====
-- Snappy, the compression library that the program calls: `none` is a result other than 0.
use fine_db.Prelude.{◌≡◌, ◌≢◌, Option, some, [], Bytes}

pub record Snappy : Type 0 where
  pub snappy_compress : Bytes → Option Bytes
  pub snappy_uncompress : Bytes → Option Bytes

-- What was compressed is read back, and no text compresses to nothing: the length stands first.
pub record IsSnappy (z : Snappy) : Type 0 where
  pub uncompress-compress :
      (xs zs : Bytes) → z.snappy_compress xs ≡ some zs → z.snappy_uncompress zs ≡ some xs
  pub compress_nonempty : (xs zs : Bytes) → z.snappy_compress xs ≡ some zs → zs ≢ []
