-- ===== src/Cli/Quoting.antt =====
-- How lines in the form that the help text shows are read.
use fine_db.Prelude.{ℕ, ◌≡◌, refl, false, some, [], ◌∷◌, ◌++◌, Bytes, ◌==◌, arith}
use fine_db.Dynabin.{Dynabin}
use fine_db.Snappy.{Snappy}
use fine_db.Client.{put_request}
use fine_db.Client.Sends.{IsReady, finedb_put-sends}
use fine_db.Cli.{Cli, check_connection, command_send_data}
use fine_db.Cli.Line.{
  quote, parsed, cut_at_quote, close_data, read_key, read_data, read_key_data, ltrim, is_space,
}

-- A text without a quote.
abbrev pub IsPlain : Bytes → Type 0
IsPlain [] = Unit {0}
IsPlain (c ∷ cs) = ((c == quote) ≡ false) × IsPlain cs

abbrev pub quoted : Bytes → Bytes
quoted xs = quote ∷ (xs ++ quote ∷ [])

cut_at_quote-plain :
    (xs rest : Bytes) → IsPlain xs → cut_at_quote (xs ++ quote ∷ rest) ≡ some (xs, rest)
unfolding cut_at_quote
cut_at_quote-plain [] rest h = refl
cut_at_quote-plain (c ∷ cs) rest h = ground (arith, cut_at_quote-plain cs rest h.1, h.0)

close_data-quote : (xs : Bytes) → close_data (xs ++ quote ∷ []) ≡ parsed xs
unfolding close_data
close_data-quote [] = refl
close_data-quote (c ∷ []) = refl
close_data-quote (c ∷ d ∷ ds) = ground (arith, close_data-quote (d ∷ ds))

-- A key that is not empty and has no quote, in quotes, and a value in quotes behind a space: both are
-- read back, also if the value is empty or has quotes in it.
pub read_key_data-quoted :
    (c : ℕ) (cs value : Bytes)
    → IsPlain (c ∷ cs)
    → read_key_data (quote ∷ ((c ∷ cs) ++ quote ∷ (32 ∷ quoted value))) ≡ parsed (c ∷ cs, value)
unfolding read_key_data read_key read_data ltrim is_space
read_key_data-quoted c cs value h =
    ground (arith, cut_at_quote-plain (c ∷ cs) (32 ∷ quoted value) h, close_data-quote value)

-- A `put` line of this form, where the connection is not checked first, the client's allocations and
-- transmissions succeed and Snappy compresses the value, makes the client library send one PUT request
-- with the key and the compressed value, and nothing else.
pub command_send_data-sends :
    (dyn : Dynabin) (zip : Snappy) (c : ℕ) (cs value z : Bytes) (cli : Cli)
    → IsPlain (c ∷ cs)
    → cli.autocheck ≡ false
    → IsReady cli.finedb
    → zip.snappy_compress value ≡ some z
    → let line = quote ∷ ((c ∷ cs) ++ quote ∷ (32 ∷ quoted value)) in
      (command_send_data dyn zip false false line cli).1.finedb.sent
      ≡ cli.finedb.sent ++ put_request cli.finedb.sync (c ∷ cs) z
unfolding command_send_data check_connection
command_send_data-sends dyn zip c cs value z cli h unchecked ready zipped = ground (
  arith,
  read_key_data-quoted c cs value h,
  finedb_put-sends zip (c ∷ cs) value z cli.finedb ready zipped,
)
