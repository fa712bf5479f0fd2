-- ===== src/Startup/CommandLine.antt =====
-- The command line's options: src/server/main.c, with the defaults of finedb.h.
use native.Mathlib.Nat.{pow-suc, mod-eq_of_lt}
use fine_db.Prelude.{
  ℕ, ◌+◌, ◌*◌, ◌-◌, ◌%◌, ◌^◌, ◌<◌, ◌≤◌, ltb, length, ◌≡◌, refl, ap, ◌∙◌, ◌||◌, Bool, true, false,
  ◌&&◌, Option, none, some, List, [], ◌∷◌, Bytes, leb, ◌==◌, arith, if◌then◌else◌,
}

pub record Settings : Type 0 where
  pub nbr_threads : ℕ
  pub nbr_dbs : ℕ
  pub mapsize : ℕ
  pub port : ℕ
  pub timeout : ℕ
  pub db_path : Option Bytes

abbrev pub default_settings : Settings
default_settings = record {
  nbr_threads = 15;
  nbr_dbs = 1;
  mapsize = 10485760;
  port = 11138;
  timeout = 30;
  db_path = none;
}

-- What `getopt` returns: an option with its argument, or `?` for one that is not known.
pub data Flag : Type 0 where
  -- -t, -n, -s, -p, -f, -i, -d and -h.
  threads_flag dbs_flag size_flag port_flag path_flag seconds_flag : Bytes → Flag
  debug_flag help_flag unknown_flag : Flag

-- `isspace` of the C locale.
is_space : ℕ → Bool
is_space c = leb 9 c && leb c 13 || c == 32

skip_spaces : Bytes → Bytes
unfolding is_space
skip_spaces [] = []
skip_spaces (c ∷ cs) = let rest = skip_spaces cs in if is_space c then rest else c ∷ cs

is_digit : ℕ → Bool
is_digit c = leb 48 c && leb c 57

digits : Bytes → ℕ → ℕ
unfolding is_digit
digits [] acc = acc
digits (c ∷ cs) acc = let rest = digits cs (acc * 10 + (c - 48)) in if is_digit c then rest else acc

-- A sign, `true` for a minus, and a size.
signed : Bytes → Bool × ℕ
unfolding digits
signed [] = (false, 0)
signed (c ∷ cs) =
    if c == 45
    then (true, digits cs 0)
    else if c == 43
    then (false, digits cs 0)
    else (false, digits (c ∷ cs) 0)

at_most : ℕ → ℕ → ℕ
at_most limit n = if leb n limit then n else limit

-- `strtol` to the base 10, whose result is at LONG_MIN or LONG_MAX for what a long of 64 bits cannot hold.
unfoldable pub strtol : Bytes → Bool × ℕ
unfolding skip_spaces signed at_most
strtol text =
    let r = signed (skip_spaces text) in
    (r.0, if r.0 then at_most (2 ^ 63) r.1 else at_most (2 ^ 63 - 1) r.1)

-- `atoi`, which glibc defines as `(int)strtol(text, NULL, 10)`: the 32 bits of the int.
unfoldable pub atoi : Bytes → ℕ
unfolding strtol
atoi text = let r = strtol text in if r.0 then (2 ^ 32 - r.1 % 2 ^ 32) % 2 ^ 32 else r.1 % 2 ^ 32

-- The conversion of an int to an unsigned integer of `w` bits, 64 at most: its sign is kept by the bits
-- above the 32.
unfoldable pub cast : ℕ → ℕ → ℕ
cast w bits = (if ltb bits (2 ^ 31) then bits else bits + (2 ^ 64 - 2 ^ 32)) % 2 ^ w

-- The switch; `none` is the exit behind the usage text.
unfoldable pub set_option : Flag → Settings → Option Settings
set_option (threads_flag arg) o = some (record o { nbr_threads = cast 16 (atoi arg) })
set_option (dbs_flag arg) o = some (record o { nbr_dbs = cast 32 (atoi arg) })
set_option (size_flag arg) o = some (record o { mapsize = cast 64 (atoi arg) })
set_option (port_flag arg) o = some (record o { port = cast 16 (atoi arg) })
set_option (path_flag arg) o = some (record o { db_path = some arg })
set_option (seconds_flag arg) o = some (record o { timeout = cast 16 (atoi arg) })
set_option debug_flag o = some o
set_option help_flag o = none
set_option unknown_flag o = some o

continue : (Settings → Option Settings) → Option Settings → Option Settings
continue next none = none
continue next (some o) = next o

unfoldable pub parse_options : List Flag → Settings → Option Settings
unfolding continue
parse_options [] o = some o
parse_options (flag ∷ flags) o = continue (parse_options flags) (set_option flag o)

-- The digits of a number, as characters, and the number that they stand for by their places.
abbrev pub text_of : List ℕ → Bytes
text_of [] = []
text_of (d ∷ ds) = (48 + d) ∷ text_of ds

abbrev pub place_value : List ℕ → ℕ
place_value [] = 0
place_value (d ∷ ds) = d * 10 ^ length ds + place_value ds

abbrev pub AreDigits : List ℕ → Type 0
AreDigits [] = Unit {0}
AreDigits (d ∷ ds) = (d < 10) × AreDigits ds

-- An argument is a number below a bound, in decimal digits.
abbrev pub Writes : Bytes → ℕ → ℕ → Type 0
Writes arg n bound =
    (ds : List ℕ) × AreDigits ds × (arg ≡ text_of ds) × (place_value ds ≡ n) × (n < bound)

moved_on : (acc d p v : ℕ) → (acc * 10 + d) * p + v ≡ acc * (p * 10) + (d * p + v)
moved_on acc d p v = omega arith

digits-text_of :
    (ds : List ℕ) (acc : ℕ)
    → AreDigits ds
    → digits (text_of ds) acc ≡ acc * 10 ^ length ds + place_value ds
unfolding digits is_digit
digits-text_of [] acc h = omega arith
digits-text_of (d ∷ ds) acc h =
    let next = digits-text_of ds (acc * 10 + d) h.1 in
    let value : 48 + d - 48 ≡ d = omega arith in
    let is : is_digit (48 + d) ≡ true = ground arith in
    rw (value, is, pow-suc 10 (length ds)) (next ∙ moved_on acc d (10 ^ length ds) (place_value ds))

signed-text_of : (ds : List ℕ) → AreDigits ds → signed (text_of ds) ≡ (false, place_value ds)
unfolding signed
signed-text_of [] h = refl
signed-text_of (d ∷ ds) h =
    let no_minus : (48 + d == 45) ≡ false = ground arith in
    let no_plus : (48 + d == 43) ≡ false = ground arith in
    rw (no_minus, no_plus) (ap (λ (n : ℕ). (false, n)) (digits-text_of (d ∷ ds) 0 h ∙ omega arith))

skip_spaces-text_of : (ds : List ℕ) → AreDigits ds → skip_spaces (text_of ds) ≡ text_of ds
unfolding skip_spaces is_space
skip_spaces-text_of [] h = refl
skip_spaces-text_of (d ∷ ds) h = ground arith

atoi-Writes : (arg : Bytes) (n bound : ℕ) → bound ≤ 2 ^ 31 → Writes arg n bound → atoi arg ≡ n
unfolding atoi strtol at_most
atoi-Writes arg n bound small (ds, are, same, sum, low) =
    ground (arith, same, sum, skip_spaces-text_of ds are, signed-text_of ds are)

cast-small : (w n : ℕ) → n < 2 ^ 31 → n < 2 ^ w → cast w n ≡ n
unfolding cast
cast-small w n small fits =
    let below : ltb n (2 ^ 31) ≡ true = ground arith in rw below (mod-eq_of_lt fits)

reads :
    (w : ℕ) (arg : Bytes) (n bound : ℕ)
    → bound ≤ 2 ^ 31
    → bound ≤ 2 ^ w
    → Writes arg n bound
    → cast w (atoi arg) ≡ n
reads w arg n bound small fits t =
    let low = t.4 in
    rw (atoi-Writes arg n bound small t) (cast-small w n (omega arith) (omega arith))

-- When the command line has the options -t, -n, -s, -p, -f and -i, with the settings' numbers in decimal
-- digits, of which the numbers of databases and the map size are below 2^31 and the others below 2^16,
-- and the settings' path, these settings are what it leads to, whatever the defaults.
pub parse_options_reads :
    (threads dbs size port seconds path : Bytes) (defaults o : Settings)
    → Writes threads o.nbr_threads (2 ^ 16)
    → Writes dbs o.nbr_dbs (2 ^ 31)
    → Writes size o.mapsize (2 ^ 31)
    → Writes port o.port (2 ^ 16)
    → Writes seconds o.timeout (2 ^ 16)
    → o.db_path ≡ some path
    → parse_options
        (threads_flag threads
          ∷ dbs_flag dbs
          ∷ size_flag size
          ∷ port_flag port
          ∷ path_flag path
          ∷ seconds_flag seconds
          ∷ [])
        defaults
      ≡ some o
unfolding parse_options set_option continue
parse_options_reads threads dbs size port seconds path defaults o t n s p i f = ground (
  arith,
  f,
  reads 16 threads o.nbr_threads (2 ^ 16) (omega arith) (omega arith) t,
  reads 32 dbs o.nbr_dbs (2 ^ 31) (omega arith) (omega arith) n,
  reads 64 size o.mapsize (2 ^ 31) (omega arith) (omega arith) s,
  reads 16 port o.port (2 ^ 16) (omega arith) (omega arith) p,
  reads 16 seconds o.timeout (2 ^ 16) (omega arith) (omega arith) i,
)
