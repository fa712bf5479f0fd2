-- ===== src/Cli/Line.antt =====
-- How command_get, command_del and command_send_data of src/cli/finedb-cli.c take a line apart. A
-- line is the bytes of a C string, so none of them is 0.
use fine_db.Prelude.{ℕ, Bool, ◌||◌, Option, none, some, [], ◌∷◌, Bytes, ◌==◌, if◌then◌else◌}

abbrev pub quote : ℕ
quote = 34

-- IS_SPACE: a space, a tabulator, LF or CR.
unfoldable pub is_space : ℕ → Bool
is_space c = c == 32 || c == 9 || c == 10 || c == 13

-- LTRIM.
unfoldable pub ltrim : Bytes → Bytes
ltrim [] = []
ltrim (c ∷ cs) = let rest = ltrim cs in if is_space c then rest else c ∷ cs

-- The complaints about a line.
pub data Complaint : Type 0 where
  no_key_quote no_key no_key_end missing_data no_data_quote no_data_end : Complaint

pub data Parsed (A : Type 0) : Type 0 where
  parsed : A → Parsed A
  bad : Complaint → Parsed A

more : ℕ → Option (Bytes × Bytes) → Option (Bytes × Bytes)
more c none = none
more c (some (before, behind)) = some (c ∷ before, behind)

-- strchr for the quote: what stands before it and behind it.
unfoldable pub cut_at_quote : Bytes → Option (Bytes × Bytes)
unfolding more
cut_at_quote [] = none
cut_at_quote (c ∷ cs) =
    let rest = more c (cut_at_quote cs) in if c == quote then some ([], cs) else rest

on_cut : Option (Bytes × Bytes) → Parsed (Bytes × Bytes)
on_cut none = bad no_key_end
on_cut (some kept) = parsed kept

open_key : Bytes → Parsed (Bytes × Bytes)
unfolding on_cut
open_key [] = bad no_key_quote
open_key (c ∷ []) = if c == quote then bad no_key else bad no_key_quote
open_key (c ∷ d ∷ ds) = if c == quote then on_cut (cut_at_quote (d ∷ ds)) else bad no_key_quote

-- The key between the quotes, and what is behind it.
unfoldable pub read_key : Bytes → Parsed (Bytes × Bytes)
unfolding open_key
read_key line = open_key (ltrim line)

cons_to : ℕ → Parsed Bytes → Parsed Bytes
cons_to c (bad why) = bad why
cons_to c (parsed cs) = parsed (c ∷ cs)

-- The last byte must be a quote; the ones before it are the data.
unfoldable pub close_data : Bytes → Parsed Bytes
unfolding cons_to
close_data [] = bad missing_data
close_data (c ∷ []) = if c == quote then parsed [] else bad no_data_end
close_data (c ∷ d ∷ ds) = cons_to c (close_data (d ∷ ds))

open_data : Bytes → Parsed Bytes
open_data [] = bad no_data_quote
open_data (c ∷ cs) = if c == quote then close_data cs else bad no_data_quote

-- The byte behind the key's second quote is skipped, whatever it is.
unfoldable pub read_data : Bytes → Parsed Bytes
unfolding open_data
read_data [] = bad missing_data
read_data (c ∷ cs) = open_data (ltrim cs)

pair_up : Bytes → Parsed Bytes → Parsed (Bytes × Bytes)
pair_up key (bad why) = bad why
pair_up key (parsed value) = parsed (key, value)

on_key : Parsed (Bytes × Bytes) → Parsed (Bytes × Bytes)
unfolding pair_up
on_key (bad why) = bad why
on_key (parsed (key, behind)) = pair_up key (read_data behind)

unfoldable pub read_key_data : Bytes → Parsed (Bytes × Bytes)
unfolding on_key
read_key_data line = on_key (read_key line)
