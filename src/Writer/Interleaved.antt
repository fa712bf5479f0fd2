-- ===== src/Writer/Interleaved.antt =====
-- The writer thread and the connection threads at work at the same time: every order in which their
-- calls of database.c, outside transactions and in the default database, and their messages may come.
use fine_db.Prelude.{
  ℕ, Option, ◌==◌, ==_iff, update, false, Bool-cases, append-nil, ◌≡◌, refl, sym, ap, ◌∙◌, Bool,
  true, none, some, List, [], ◌∷◌, ◌++◌, append_assoc, Bytes, arith, if◌then◌else◌, inl, inr,
  Option-cases,
}
use fine_db.Lmdb.{Lmdb, IsLmdb, Store, Name}
use fine_db.Database.{database_get}
use fine_db.Database.Atomic.{CommitsSucceed}
use fine_db.Database.Read.{database_get_leaks}
use fine_db.Server.{WriterMsg}
use fine_db.Writer.{writer_step}
use fine_db.Writer.Replay.{apply_msg, OnDefault, step-replay}

-- A change that was tried, and whether it was made: `origin` is the thread from whose pipe the writer
-- thread had it, or `none` for a thread's own call.
pub record Entry : Type 0 where
  pub origin : Option ℕ
  pub msg : WriterMsg
  pub done : Bool

abbrev pub apply_entry : Entry → Store → Store
apply_entry entry s = if entry.done then apply_msg (some entry.msg) s else s

abbrev pub replay_log : List Entry → Store → Store
replay_log [] s = s
replay_log (entry ∷ log) s = replay_log log (apply_entry entry s)

replay_log-snoc :
    (log : List Entry) (entry : Entry) (s : Store)
    → replay_log (log ++ entry ∷ []) s ≡ apply_entry entry (replay_log log s)
replay_log-snoc [] entry s = refl
replay_log-snoc (first ∷ log) entry s = replay_log-snoc log entry (apply_entry first s)

abbrev comes_from : ℕ → Option ℕ → Bool
comes_from i none = false
comes_from i (some j) = j == i

-- The messages of a thread that are in the log.
abbrev pub taken_from : ℕ → List Entry → List WriterMsg
taken_from i [] = []
taken_from i (entry ∷ log) =
    if comes_from i entry.origin then entry.msg ∷ taken_from i log else taken_from i log

taken_from-snoc :
    (i : ℕ) (log : List Entry) (entry : Entry)
    → taken_from i (log ++ entry ∷ [])
      ≡ taken_from i log ++ (if comes_from i entry.origin then entry.msg ∷ [] else [])
taken_from-snoc i [] entry = ground arith
taken_from-snoc i (first ∷ log) entry = ground (arith, taken_from-snoc i log entry)

module _ (l : Lmdb) where
  -- The environment, and the pipe of each connection thread to the writer thread; and, for the
  -- statements, the messages that each thread ever sent, and the log of all changes tried.
  pub record System : Type 0 where
    pub env : l.Env
    pub pipes : ℕ → List WriterMsg
    pub sent : ℕ → List WriterMsg
    pub log : List Entry

  abbrev pub begun : l.Env → System
  begun e = record { env = e; pipes = λ i. []; sent = λ i. []; log = [] }

  abbrev pub tried : Option ℕ → WriterMsg → l.Env → Entry
  tried origin msg e = record { origin = origin; msg = msg; done = (writer_step l msg e).0 }

  -- A thread sends a message.
  abbrev pub posted : ℕ → WriterMsg → System → System
  posted i msg s = record s {
    pipes = update i (s.pipes i ++ msg ∷ []) s.pipes;
    sent = update i (s.sent i ++ msg ∷ []) s.sent;
  }

  -- A thread makes a change itself: a synchronous request calls database.c as writer_step does.
  abbrev pub changed : WriterMsg → System → System
  changed msg s = record s {
    env = (writer_step l msg s.env).1;
    log = s.log ++ tried none msg s.env ∷ [];
  }

  abbrev pub looked : l.Dbi → Name → Bytes → System → System
  looked unset n k s = record s { env = (database_get l unset none n k s.env).1 }

  -- The writer thread takes the first message of a pipe.
  abbrev pub wrote : ℕ → WriterMsg → List WriterMsg → System → System
  wrote i msg rest s = record s {
    env = (writer_step l msg s.env).1;
    pipes = update i rest s.pipes;
    log = s.log ++ tried (some i) msg s.env ∷ [];
  }

  -- A connection thread sends a message, makes a change itself, or reads; or the writer thread takes the
  -- first message of any of the pipes: nanomsg keeps the order within a pipe, and not between them.
  pub data Step : System → System → Type 0 where
    send_msg :
        (s : System) (i : ℕ) (msg : WriterMsg) → OnDefault (some msg) → Step s (posted i msg s)
    change_now : (s : System) (msg : WriterMsg) → OnDefault (some msg) → Step s (changed msg s)
    read_now : (s : System) (unset : l.Dbi) (n : Name) (k : Bytes) → Step s (looked unset n k s)
    write_next :
        (s : System) (i : ℕ) (msg : WriterMsg) (rest : List WriterMsg)
        → OnDefault (some msg)
        → s.pipes i ≡ msg ∷ rest
        → Step s (wrote i msg rest s)

  pub data Reachable (e : l.Env) : System → Type 0 where
    start : Reachable e (begun e)
    next : {s t : System} → Reachable e s → Step s t → Reachable e t

  -- What a thread sent is what the log has of it and what waits in its pipe.
  abbrev Accounted : System → Type 0
  Accounted s = (i : ℕ) → s.sent i ≡ taken_from i s.log ++ s.pipes i

  Step-Accounted : {s t : System} → Step s t → Accounted s → Accounted t
  Step-Accounted (send_msg s i msg h) all j = elim (Bool-cases (i == j)) [
    | inl here ↦
        let same = (==_iff i j).0 here in
        ground (
          arith,
          here,
          ap s.sent same,
          ap s.pipes same,
          all j,
          append_assoc (taken_from j s.log) (s.pipes j) (msg ∷ []),
        )
    | inr apart ↦ rw apart (all j)
  ]
  Step-Accounted (change_now s msg h) all j = ground (
    arith,
    all j,
    taken_from-snoc j s.log (tried none msg s.env),
    append-nil (taken_from j s.log),
  )
  Step-Accounted (read_now s unset n k) all j = all j
  Step-Accounted (write_next s i msg rest h first) all j = elim (Bool-cases (i == j)) [
    | inl here ↦ ground (
      arith,
      here,
      ap s.pipes ((==_iff i j).0 here),
      first,
      all j,
      taken_from-snoc j s.log (tried (some i) msg s.env),
      append_assoc (taken_from j s.log) (msg ∷ []) rest,
    )
    | inr apart ↦ ground (
      arith,
      apart,
      all j,
      taken_from-snoc j s.log (tried (some i) msg s.env),
      append-nil (taken_from j s.log),
    )
  ]

module _ (l : Lmdb) (doc : IsLmdb l) where
  open doc use {committed}

  pub get_commits_nothing :
      (unset : l.Dbi) (n : Name) (k : Bytes) (e : l.Env)
      → committed (database_get l unset none n k e).1 ≡ committed e
  unfolding database_get
  get_commits_nothing unset n k e = elim (Option-cases (l.mdb_txn_begin true e).0) [
    | inl gone ↦ ground (arith, gone, doc.begin_none true e)
    | inr (t, begun) ↦ (database_get_leaks l doc unset n k e t begun).0
  ]

  logged :
      CommitsSucceed l doc
      → (origin : Option ℕ) (msg : WriterMsg) (log : List Entry) (e0 e : l.Env)
      → OnDefault (some msg)
      → committed e ≡ replay_log log (committed e0)
      → committed (writer_step l msg e).1
        ≡ replay_log (log ++ tried l origin msg e ∷ []) (committed e0)
  logged good origin msg log e0 e h before =
      (step-replay l doc good msg e h).0
      ∙ ap (apply_entry (tried l origin msg e)) before
      ∙ sym (replay_log-snoc log (tried l origin msg e) (committed e0))

  Step-replay :
      CommitsSucceed l doc
      → (e : l.Env) {s t : System l} → Step l s t
      → committed s.env ≡ replay_log s.log (committed e)
      → committed t.env ≡ replay_log t.log (committed e)
  Step-replay good e (send_msg s i msg h) same = same
  Step-replay good e (change_now s msg h) same = logged good none msg s.log e s.env h same
  Step-replay good e (read_now s unset n k) same = get_commits_nothing unset n k s.env ∙ same
  Step-replay good e (write_next s i msg rest h first) same =
      logged good (some i) msg s.log e s.env h same

  -- Where commits succeed, in every order in which connection threads and the writer thread may come
  -- to work outside transactions on the default database, each thread with its own pipe: the committed
  -- data is that of the start with the changes applied that were reported as made, in the order in which
  -- they were tried; and the messages of each thread that were tried, in that order, and those that
  -- wait in its pipe behind them, are those that it sent, none twice and none lost.
  pub Reachable-replay :
      CommitsSucceed l doc
      → (e : l.Env) {s : System l} → Reachable l e s
      → (committed s.env ≡ replay_log s.log (committed e))
        × ((i : ℕ) → s.sent i ≡ taken_from i s.log ++ s.pipes i)
  Reachable-replay good e start = (refl, λ i. refl)
  Reachable-replay good e (next run step) =
      let (same, all) = Reachable-replay good e run in
      (Step-replay good e step same, Step-Accounted l step all)
