-- ===== src/Writer/Queues.antt =====
-- Messages that wait, as the writer thread receives them, and for which database they are.
use fine_db.Prelude.{Option, some, List, [], ◌∷◌, ◌++◌}
use fine_db.Server.{WriterMsg}
use fine_db.Writer.Replay.{OnDefault, AllOnDefault}

-- As the writer thread receives them.
abbrev pub received_all : List WriterMsg → List (Option WriterMsg)
received_all [] = []
received_all (msg ∷ msgs) = some msg ∷ received_all msgs

abbrev pub QueueOnDefault : List WriterMsg → Type 0
QueueOnDefault [] = Unit {0}
QueueOnDefault (msg ∷ msgs) = OnDefault (some msg) × QueueOnDefault msgs

pub QueueOnDefault-snoc :
    (msgs : List WriterMsg) (msg : WriterMsg)
    → QueueOnDefault msgs
    → OnDefault (some msg)
    → QueueOnDefault (msgs ++ msg ∷ [])
QueueOnDefault-snoc [] msg q h = (h, tt)
QueueOnDefault-snoc (first ∷ msgs) msg q h = (q.0, QueueOnDefault-snoc msgs msg q.1 h)

pub received_all-AllOnDefault :
    (msgs : List WriterMsg) → QueueOnDefault msgs → AllOnDefault (received_all msgs)
received_all-AllOnDefault [] q = tt
received_all-AllOnDefault (msg ∷ msgs) q = (q.0, received_all-AllOnDefault msgs q.1)
