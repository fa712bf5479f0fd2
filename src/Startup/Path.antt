-- ===== src/Startup/Path.antt =====
-- Where the database is: get_self_path (src/server/self_path.c, for Linux), and the path that
-- finedb_init (src/server/finedb.c) opens.
use fine_db.Prelude.{
  ℕ, ◌≡◌, ◌≢◌, refl, Option, none, some, [], ◌∷◌, ◌++◌, Bytes, ◌==◌, arith, if◌then◌else◌,
}

-- What stands before the last `c`, as `strrchr` finds it.
unfoldable pub before_last : ℕ → Bytes → Option Bytes
before_last c [] = none
before_last c (x ∷ xs) =
    let here = if x == c then some [] else none in
    elim (before_last c xs) [ some dir ↦ some (x ∷ dir) | none ↦ here ]

cut_name : Bytes → Option Bytes → Bytes
cut_name path none = path
cut_name path (some dir) = dir

-- `realpath` gives the path of the program, or NULL.
unfoldable pub get_self_path : Option Bytes → Option Bytes
unfolding before_last cut_name
get_self_path none = none
get_self_path (some path) = some (cut_name path (before_last 47 path))

-- DEFAULT_DB_PATH, "../var/database", behind a slash.
abbrev pub slash_default_db_path : Bytes
slash_default_db_path =
    47 ∷ 46 ∷ 46 ∷ 47 ∷ 118 ∷ 97 ∷ 114 ∷ 47 ∷ 100 ∷ 97 ∷ 116 ∷ 97 ∷ 98 ∷ 97 ∷ 115 ∷ 101 ∷ []

below : Option Bytes → Option Bytes
below none = none
below (some base_path) = some (base_path ++ slash_default_db_path)

-- The path given with -f, or else the default one; `none` where `strlen` is called on NULL.
unfoldable pub database_path : Option Bytes → Option Bytes → Option Bytes
unfolding get_self_path below
database_path (some db_path) real_path = some db_path
database_path none real_path = below (get_self_path real_path)

-- No byte of a name is `c`.
abbrev pub Without : ℕ → Bytes → Type 0
Without c [] = Unit {0}
Without c (x ∷ xs) = (x ≢ c) × Without c xs

before_last-none : (c : ℕ) (name : Bytes) → Without c name → before_last c name ≡ none
unfolding before_last
before_last-none c [] h = refl
before_last-none c (x ∷ xs) h = ground (arith, before_last-none c xs h.1)

before_last-some :
    (c : ℕ) (dir name : Bytes) → Without c name → before_last c (dir ++ c ∷ name) ≡ some dir
unfolding before_last
before_last-some c [] name h = ground (arith, before_last-none c name h)
before_last-some c (x ∷ dir) name h = ground (arith, before_last-some c dir name h)

-- Without -f, the database of a program that stands in a directory is the file var/database beside
-- that directory.
pub database_path_lem :
    (dir name : Bytes)
    → Without 47 name
    → database_path none (some (dir ++ 47 ∷ name)) ≡ some (dir ++ slash_default_db_path)
unfolding database_path
database_path_lem dir name h = ground (arith, before_last-some 47 dir name h)
