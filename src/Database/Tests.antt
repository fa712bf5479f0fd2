-- ===== src/Database/Tests.antt =====
-- Runs of database.c on the sample environment.
use fine_db.Prelude.{◌⊎◌, ◌≡◌, ◌≢◌, refl, true, false, none, some, List, [], ◌∷◌, Bytes, arith}
use fine_db.Yerr.{Yerr, yenoerr, yeaccess}
use fine_db.Lmdb.{View, insert, erase}
use fine_db.Lmdb.Sample.{Disk, sample, sample-IsLmdb, empty_disk}
use fine_db.Database.{database_put, database_del, database_get, database_list}
use fine_db.Database.Atomic.{CommitsSucceed, database_put-committed, database_put_fails}
use fine_db.Database.Erase.{database_del-committed}
use fine_db.Database.Read.{Tells, database_get-Tells, database_get-transaction, database_get_leaks}
use fine_db.Database.Faults.{put_aborts_freed}

abbrev key : Bytes
key = 107 ∷ []

abbrev value : Bytes
value = 118 ∷ 118 ∷ []

abbrev stored : Disk
stored = (database_put (sample false) none true none key value empty_disk).1

put_runs : (database_put (sample false) none true none key value empty_disk).0 ≡ yenoerr
unfolding database_put
put_runs = refl

-- With create_only a second write under the key is refused.
put_again : (database_put (sample false) none true none key value stored).0 ≡ yeaccess
unfolding database_put insert
put_again = refl

get_runs : (database_get (sample false) none none none key stored).0 ≡ (yenoerr, some value)
unfolding database_put database_get insert
get_runs = refl

del_runs : (database_del (sample false) none none key stored).0 ≡ yenoerr
unfolding database_put database_del insert
del_runs = refl

-- The callback stops the loop by an error.
-- The first callback goes on, a later one stops.
abbrev if_short : List Bytes → Yerr
if_short [] = yenoerr
if_short (k ∷ s) = yeaccess

list_runs :
    (database_list
      (sample false)
      none
      none
      (λ (s : List Bytes) k x. (if_short s, k ∷ s))
      []
      (record empty_disk { listing = (key, value) ∷ (value, key) ∷ (key, key) ∷ [] })).0
    ≡ (yenoerr, value ∷ key ∷ [])
unfolding database_list
list_runs = refl

sample_commits : CommitsSucceed (sample false) (sample-IsLmdb false)
sample_commits t e h = ground arith

database_put-committed_example :
    ((sample-IsLmdb false).committed stored ≡ insert none key value empty_disk.store)
    × ((sample-IsLmdb false).open_txns stored ≡ 0)
    × ((true ≡ false) ⊎ (empty_disk.store none key ≡ none))
unfolding database_put
database_put-committed_example =
    database_put-committed (sample false) (sample-IsLmdb false) true key value empty_disk refl

database_put_fails_example :
    let r = database_put (sample false) none true (some key) key value empty_disk in
    ((sample-IsLmdb false).open_txns r.1 ≡ 0)
    × ((r.0 ≡ yenoerr) ⊎ (sample-IsLmdb false).committed r.1 ≡ empty_disk.store)
database_put_fails_example =
    database_put_fails (sample false) (sample-IsLmdb false) sample_commits true (some key) key value
      empty_disk

database_del-committed_example :
    let e' = (database_del (sample false) none none key stored).1 in
    ((sample-IsLmdb false).committed e' ≡ erase none key stored.store)
    × ((sample-IsLmdb false).open_txns e' ≡ (sample-IsLmdb false).open_txns stored)
    × (stored.store none key ≢ none)
unfolding database_put database_del insert
database_del-committed_example =
    database_del-committed (sample false) (sample-IsLmdb false) key stored refl

database_get-Tells_example :
    Tells (database_get (sample false) none none none key stored).0 stored.store none key
database_get-Tells_example =
    database_get-Tells (sample false) (sample-IsLmdb false) none none key stored

abbrev snapshot : View
snapshot = record { readonly = true; store = insert none key value empty_disk.store }

database_get-transaction_example :
    Tells
      (database_get
        (sample false)
        none
        (some tt)
        none
        key
        (record empty_disk { active = some snapshot })).0
      snapshot.store
      none
      key
database_get-transaction_example =
    database_get-transaction (sample false) (sample-IsLmdb false) none tt none key
      (record empty_disk { active = some snapshot }) snapshot refl

-- A GET in a database that does not exist.
database_get_leaks_example :
    let r = database_get (sample false) none none (some key) key empty_disk in
    let opened =
      ((sample false).mdb_dbi_open tt
        (some key)
        false
        ((sample false).mdb_txn_begin true empty_disk).1).0 in
    ((sample-IsLmdb false).committed r.1 ≡ empty_disk.store)
    × (((opened ≡ none) × (r.0 ≡ (yeaccess, none)) × ((sample-IsLmdb false).open_txns r.1 ≡ 1))
        ⊎ ((opened ≢ none) × ((sample-IsLmdb false).open_txns r.1 ≡ 0)))
database_get_leaks_example =
    database_get_leaks (sample false) (sample-IsLmdb false) none (some key) key empty_disk tt refl

-- On a full disk.
put_aborts_freed_example :
    let r = database_put (sample true) none false none key value empty_disk in
    (r ≡ (yeaccess, record empty_disk { active = none }))
    × ((sample-IsLmdb true).view empty_disk tt ≡ none)
put_aborts_freed_example =
    put_aborts_freed (sample true) (sample-IsLmdb true) false none key value empty_disk _ _ _ _ tt
      none refl refl refl refl
