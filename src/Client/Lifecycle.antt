-- ===== src/Client/Lifecycle.antt =====
-- How a client of the library (src/lib/libfinedb.c) is created, disconnected and deleted.
use fine_db.Prelude.{ℕ, Bool, false, Option, none, some, List, [], ◌∷◌, ◌++◌, if◌then◌else◌}
use fine_db.Client.{Client}

-- YMALLOC sets every byte to zero. The later allocations of the client are parameters.
fresh : List Bool → Client
fresh allocs = record {
  sock = none;
  sync = false;
  socket = record { recvs = []; sends = []; sent = [] };
  allocs = allocs;
}

-- The results of YMALLOC and of strdup for the host's name.
unfoldable pub finedb_create : Bool → Bool → List Bool → Option Client
unfolding fresh
finedb_create allocated copied allocs =
    if allocated then if copied then some (fresh allocs) else none else none

-- The descriptors that were closed, oldest first. The client keeps its descriptor.
unfoldable pub finedb_disconnect : Client → List ℕ → List ℕ
finedb_disconnect c closed = elim c.sock [ none ↦ closed | some fd ↦ closed ++ fd ∷ [] ]

unfoldable pub finedb_delete : Client → List ℕ → List ℕ
unfolding finedb_disconnect
finedb_delete c closed = finedb_disconnect c closed
