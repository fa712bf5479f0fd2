-- ===== src/Cli/Typed.antt =====
-- A whole line that is typed, up to the request that it makes the client library send.
use fine_db.Prelude.{ℕ, ◌<◌, ◌≡◌, refl, false, some, [], ◌∷◌, ◌++◌, Bytes, arith}
use fine_db.Dynabin.{Dynabin}
use fine_db.Snappy.{Snappy}
use fine_db.Client.{put_request}
use fine_db.Client.Sends.{IsReady}
use fine_db.Cli.{Cli}
use fine_db.Cli.Line.{quote, ltrim, is_space}
use fine_db.Cli.Quoting.{IsPlain, quoted, command_send_data-sends}
use fine_db.Cli.Words.{codes, lower, to_lower, find_word, put_word, find_word-lower}
use fine_db.Cli.Turn.{run_line, cut_word}

find_put :
    (p u t : ℕ) → lower (p ∷ u ∷ t ∷ []) ≡ codes "put" → find_word (p ∷ u ∷ t ∷ []) ≡ some put_word
unfolding find_word to_lower
find_put p u t h = find_word-lower (p ∷ u ∷ t ∷ []) (codes "put") h

-- A letter is no space.
not_space : (c d : ℕ) → to_lower c ≡ d → 64 < d → is_space c ≡ false
unfolding to_lower is_space
not_space c d e h = ground arith

ltrim_word : (c : ℕ) (cs : Bytes) → is_space c ≡ false → ltrim (c ∷ cs) ≡ c ∷ cs
unfolding ltrim
ltrim_word c cs h = ground (arith, h)

cut_put :
    (p u t : ℕ) (rest : Bytes)
    → is_space p ≡ false
    → is_space u ≡ false
    → is_space t ≡ false
    → cut_word (p ∷ u ∷ t ∷ 32 ∷ rest) ≡ (p ∷ u ∷ t ∷ [], some rest)
unfolding cut_word
cut_put p u t rest hp hu ht = ground (arith, hp, hu, ht)

-- A typed line of the word put, in whatever case, a space, a key in quotes, a space, and a value
-- in quotes, where the key is not empty and has no quote, the connection is not checked first, the
-- client's allocations and transmissions succeed and Snappy compresses the value, makes the client
-- library send one PUT request with the key and the compressed value, and nothing else.
pub run_line-put :
    (dyn : Dynabin) (zip : Snappy) (beyond : Bytes) (p u t c : ℕ) (cs value z : Bytes) (cli : Cli)
    → lower (p ∷ u ∷ t ∷ []) ≡ codes "put"
    → IsPlain (c ∷ cs)
    → cli.autocheck ≡ false
    → IsReady cli.finedb
    → zip.snappy_compress value ≡ some z
    → let line = quote ∷ ((c ∷ cs) ++ quote ∷ (32 ∷ quoted value)) in
      (run_line dyn zip beyond (p ∷ u ∷ t ∷ 32 ∷ line) cli).1.finedb.sent
      ≡ cli.finedb.sent ++ put_request cli.finedb.sync (c ∷ cs) z
unfolding run_line
run_line-put dyn zip beyond p u t c cs value z cli word plain unchecked ready zipped =
    let line = quote ∷ ((c ∷ cs) ++ quote ∷ (32 ∷ quoted value)) in
    let hp = not_space p 112 (ground arith) (omega arith) in
    let hu = not_space u 117 (ground arith) (omega arith) in
    let ht = not_space t 116 (ground arith) (omega arith) in
    ground (
      arith,
      ltrim_word p (u ∷ t ∷ 32 ∷ line) hp,
      cut_put p u t line hp hu ht,
      ltrim_word quote ((c ∷ cs) ++ quote ∷ (32 ∷ quoted value)) refl,
      find_put p u t word,
      command_send_data-sends dyn zip c cs value z cli plain unchecked ready zipped,
    )
