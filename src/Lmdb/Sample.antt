-- ===== src/Lmdb/Sample.antt =====
-- A concrete environment that meets the laws: one transaction at a time, and handles that are names.
-- The tests run the program on it; the program's theorems hold of every environment.
use fine_db.Prelude.{
  ℕ, refl, Bool, true, false, not, ◌&&◌, ◌||◌, Option, none, some, List, [], Bytes, arith,
  if◌then◌else◌,
}
use fine_db.Lmdb.{
  Name, Store, View, Lmdb, IsLmdb, Found, found, not_found, failed, insert, erase, clear,
}

pub record Disk : Type 0 where
  pub store : Store
  pub active : Option View
  -- The named databases that exist; the default one always does.
  pub named : Bytes → Bool
  pub listing : List (Bytes × Bytes)

abbrev pub exists : Disk → Name → Bool
exists e none = true
exists e (some n) = e.named n

abbrev begin : Bool → Disk → Option (Unit {0}) × Disk
begin r e = elim e.active [
  | none ↦ (some tt, record e { active = some (record { readonly = r; store = e.store }) })
  | some v ↦ (none, e)
]

-- A commit fails on a full disk.
abbrev commit_view : Bool → Disk → Option View → Bool × Disk
commit_view full e none = (false, e)
commit_view full e (some v) =
    if full
    then (false, record e { active = none })
    else (true, record e { active = none; store = if v.readonly then e.store else v.store })

abbrev commit : Bool → Unit {0} → Disk → Bool × Disk
commit full t e = commit_view full e e.active

abbrev open_db : Unit {0} → Name → Bool → Disk → Option Name × Disk
open_db t n c e = (if exists e n || c then some n else none, e)

abbrev change : (Store → Bool) → (Store → Store) → Disk → Bool × Disk
change test f e = elim e.active [
  | none ↦ (false, e)
  | some v ↦
      if not v.readonly && test v.store
      then (true, record e { active = some (record v { store = f v.store }) })
      else (false, e)
]

abbrev pub present : Name → Bytes → Store → Bool
present n k s = elim (s n k) [ none ↦ false | some x ↦ true ]

abbrev look : Option Bytes → Found
look none = not_found
look (some x) = found x

abbrev pub lookup : Name → Bytes → Option View → Found
lookup n k none = failed
lookup n k (some v) = look (v.store n k)

abbrev pub sample : Bool → Lmdb
sample full = record {
  Env = Disk;
  Txn = Unit {0};
  Dbi = Name;
  mdb_txn_begin = begin;
  mdb_txn_commit = commit full;
  mdb_txn_abort = λ t e. record e { active = none };
  mdb_dbi_open = open_db;
  mdb_dbi_close = λ d e. e;
  mdb_put = λ t d once k x e. change (λ s. not (once && present d k s)) (insert d k x) e;
  mdb_del = λ t d k e. change (present d k) (erase d k) e;
  mdb_get = λ t d k e. lookup d k e.active;
  mdb_drop = λ t d e. change (λ s. true) (clear d) e;
  mdb_cursor = λ t d e. some e.listing;
}

abbrev count : Option View → ℕ
count none = 0
count (some v) = 1

abbrev pub sample-IsLmdb : (full : Bool) → IsLmdb (sample full)
sample-IsLmdb full = record {
  committed = λ e. e.store;
  view = λ e t. e.active;
  db_name = λ e d. some d;
  open_txns = λ e. count e.active;
  begin_some = λ r e t h. ground arith;
  begin_none = λ r e h. ground arith;
  commit_ends = λ t e h. ground arith;
  commit_true = λ t e v h w c. ground arith;
  commit_false = λ t e h c. ground arith;
  abort_live = λ t e h. ground arith;
  open_keeps = λ t n c e. ground arith;
  open_default = λ t c e. refl;
  open_existing = λ t n e. refl;
  open_some = λ t n c e d h. ground arith;
  close_keeps = λ d e. ground arith;
  close_live = λ d e t. ground arith;
  close_main = λ d e t h. ground arith;
  close_readonly = λ d e t v h w. h;
  put_keeps = λ t d once k x e. ground arith;
  put_true = λ t d once k x e v n h q c. ground arith;
  put_readonly = λ t d once k x e v h q. ground (arith, h, q);
  del_keeps = λ t d k e. ground arith;
  del_true = λ t d k e v n h q c. ground arith;
  drop_keeps = λ t d e. ground arith;
  get_found = λ t d k x e v n h q c. ground arith;
  get_not_found = λ t d k e v n h q c. ground arith;
}

abbrev pub empty_disk : Disk
empty_disk = record { store = λ n k. none; active = none; named = λ n. false; listing = [] }
