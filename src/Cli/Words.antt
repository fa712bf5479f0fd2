-- ===== src/Cli/Words.antt =====
-- The words of the command-line client (src/cli/finedb-cli.c): the names that its main loop compares
-- a command with, and the completion of what is typed.
use Prim.Native.Char.{code}
use Prim.Native.String.{String}
use fine_db.Prelude.{
  ℕ, ◌+◌, ◌≡◌, refl, Bool, false, ◌&&◌, Option, none, some, List, [], ◌∷◌, Bytes, length, take, ltb,
  leb, ◌==◌, bytes_eq, arith, if◌then◌else◌,
}

-- The bytes of an ASCII text.
abbrev pub codes : String → Bytes
codes String.[] = []
codes (String.◌∷◌ c s) = code c ∷ codes s

unfoldable pub to_lower : ℕ → ℕ
to_lower c = if leb b'A' c && leb c b'Z' then c + 32 else c

abbrev pub lower : Bytes → Bytes
lower [] = []
lower (c ∷ cs) = to_lower c ∷ lower cs

-- `!strcasecmp`.
unfoldable pub same_word : Bytes → Bytes → Bool
unfolding bytes_eq to_lower
same_word xs ys = bytes_eq (lower xs) (lower ys)

pub data Word : Type 0 where
  exit_word help_word sync_word async_word use_word get_word del_word put_word add_word : Word
  update_word inc_word dec_word start_word stop_word ping_word autocheck_word : Word

abbrev words : List (Bytes × Word)
words =
    (codes "exit", exit_word)
    ∷ (codes "quit", exit_word)
    ∷ (codes "help", help_word)
    ∷ (codes "sync", sync_word)
    ∷ (codes "async", async_word)
    ∷ (codes "use", use_word)
    ∷ (codes "get", get_word)
    ∷ (codes "del", del_word)
    ∷ (codes "put", put_word)
    ∷ (codes "add", add_word)
    ∷ (codes "update", update_word)
    ∷ (codes "inc", inc_word)
    ∷ (codes "dec", dec_word)
    ∷ (codes "start", start_word)
    ∷ (codes "stop", stop_word)
    ∷ (codes "ping", ping_word)
    ∷ (codes "autocheck", autocheck_word)
    ∷ []

lookup_word : Bytes → List (Bytes × Word) → Option Word
unfolding same_word
lookup_word cmd [] = none
lookup_word cmd ((name, word) ∷ rest) =
    if same_word cmd name then some word else lookup_word cmd rest

-- The chain of tests in the main loop. No name begins with a question mark, so that test may come
-- first.
unfoldable pub find_word : Bytes → Option Word
unfolding lookup_word
find_word [] = none
find_word (c ∷ cs) = if c == b'?' then some help_word else lookup_word (c ∷ cs) words

-- The array `commands`, without the NULL at its end.
abbrev pub commands : List Bytes
commands =
    codes "help"
    ∷ codes "use"
    ∷ codes "get"
    ∷ codes "del"
    ∷ codes "put"
    ∷ codes "add"
    ∷ codes "update"
    ∷ codes "inc"
    ∷ codes "dec"
    ∷ codes "start"
    ∷ codes "commit"
    ∷ codes "rollback"
    ∷ codes "ping"
    ∷ codes "sync"
    ∷ codes "async"
    ∷ codes "autocheck"
    ∷ []

-- The length, and `!strncasecmp`.
is_completion : Bytes → Bytes → Bool
unfolding same_word
is_completion buf cmd =
    if ltb (length cmd) (length buf) then false else same_word buf (take (length buf) cmd)

complete_from : Bytes → List Bytes → List Bytes
unfolding is_completion
complete_from buf [] = []
complete_from buf (cmd ∷ cmds) =
    let rest = complete_from buf cmds in if is_completion buf cmd then cmd ∷ rest else rest

unfoldable pub cli_completion : Bytes → List Bytes
unfolding complete_from
cli_completion buf = complete_from buf commands

lookup_word-lower :
    (xs ys : Bytes) (names : List (Bytes × Word))
    → lower xs ≡ lower ys
    → lookup_word xs names ≡ lookup_word ys names
unfolding lookup_word same_word
lookup_word-lower xs ys [] h = refl
lookup_word-lower xs ys ((name, word) ∷ rest) h = rw (h, lookup_word-lower xs ys rest h) refl

-- A command's name is found in whatever case its letters are.
pub find_word-lower : (xs ys : Bytes) → lower xs ≡ lower ys → find_word xs ≡ find_word ys
unfolding find_word to_lower
find_word-lower [] [] h = refl
find_word-lower [] (d ∷ ds) h = absurd (ground arith)
find_word-lower (c ∷ cs) [] h = absurd (ground arith)
find_word-lower (c ∷ cs) (d ∷ ds) h = ground (arith, lookup_word-lower (c ∷ cs) (d ∷ ds) words h)
