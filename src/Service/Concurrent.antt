-- ===== src/Service/Concurrent.antt =====
-- Many connections at a time: the server's connection threads and its writer thread at work in any
-- order, and what the specification says of the same.
use fine_db.Prelude.{
  update, ℕ, ◌+◌, Option, none, ◌≡◌, ◌≢◌, Bool, true, false, some, List, [], ◌∷◌, ◌++◌, Bytes,
  length, ◌==◌, if◌then◌else◌,
}
use fine_db.Server.{Libraries, State, WriterMsg}
use fine_db.Connection.{serve_request}
use fine_db.Writer.{writer_step}
use fine_db.Writer.Replay.{apply_msg}
use fine_db.Lmdb.{Store}
use fine_db.Service.{Request, get_data, Contents, Answers, server_reply, value_reply}

-- What a client has said and not been answered, with the part of a request at the end, what it was
-- told, while its connection lasts, and the messages of its thread that the writer thread has not taken.
pub record Conversation : Type 0 where
  pub left : List Request
  pub part : Bytes
  pub said : Bytes
  pub is_open : Bool
  pub pending : List WriterMsg

pub record Shared : Type 0 where
  pub store : Store
  pub talks : ℕ → Conversation

abbrev pub says : Bytes → Conversation → Conversation
says out c = record c { said = c.said ++ out }

-- The conversation with its first request answered.
abbrev pub answered_one : List Request → Bytes → List WriterMsg → Conversation → Conversation
answered_one rs out msgs c = record c { left = rs; said = c.said ++ out; pending = msgs }

abbrev pub shut : Conversation → Conversation
shut c = record c { is_open = false }

-- One client's first request is answered, at once; or a GET is answered by other bytes than the data that
-- it found, of the same length; or a connection ends; or the oldest message of some thread is carried out
-- or refused.
pub data Advances (b : Shared) : Shared → Type 0 where
  one_answered :
      (i : ℕ) (r : Request) (rs : List Request) (out : Bytes) (c : Contents)
      → (b.talks i).is_open ≡ true
      → (b.talks i).left ≡ r ∷ rs
      → Answers (b.store, (b.talks i).pending) r out c
      → Advances b
          (record { store = c.0; talks = update i (answered_one rs out c.1 (b.talks i)) b.talks })
  get_torn :
      (i : ℕ) (key x torn : Bytes) (rs : List Request)
      → (b.talks i).is_open ≡ true
      → (b.talks i).left ≡ get_data key ∷ rs
      → b.store none key ≡ some x
      → length torn ≡ length x
      → Advances b (record b {
        talks =
            update i (answered_one rs (value_reply torn) (b.talks i).pending (b.talks i)) b.talks;
      })
  get_refused :
      (i : ℕ) (key : Bytes) (rs : List Request)
      → (b.talks i).is_open ≡ true
      → (b.talks i).left ≡ get_data key ∷ rs
      → Advances b (record b { talks = update i (says server_reply (shut (b.talks i))) b.talks })
  client_left :
      (i : ℕ)
      → (b.talks i).is_open ≡ true
      → (b.talks i).left ≡ []
      → (b.talks i).part ≡ []
      → Advances b (record b { talks = update i (shut (b.talks i)) b.talks })
  client_cut :
      (i : ℕ)
      → (b.talks i).is_open ≡ true
      → (b.talks i).left ≡ []
      → (b.talks i).part ≢ []
      → Advances b (record b { talks = update i (says server_reply (shut (b.talks i))) b.talks })
  change_written :
      (i : ℕ) (msg : WriterMsg) (rest : List WriterMsg) (done : Bool)
      → (b.talks i).pending ≡ msg ∷ rest
      → Advances b (record {
        store = if done then apply_msg (some msg) b.store else b.store;
        talks = update i (record (b.talks i) { pending = rest }) b.talks;
      })

-- Whose conversation goes on: `none` is the writer thread's work.
abbrev pub mover : {b c : Shared} → Advances b c → Option ℕ
mover (one_answered i r rs out c alive is_left step) = some i
mover (get_torn i key x torn rs alive is_left there same) = some i
mover (get_refused i key rs alive is_left) = some i
mover (client_left i alive is_left whole) = some i
mover (client_cut i alive is_left lost) = some i
mover (change_written i msg rest done first) = none

-- Whether other bytes than those found were sent.
abbrev pub tears : {b c : Shared} → Advances b c → ℕ
tears (get_torn i key x torn rs alive is_left there same) = 1
tears _ = 0

abbrev pub is_by : ℕ → Option ℕ → ℕ
is_by i none = 0
is_by i (some j) = if j == i then 1 else 0

pub data AdvanceAll (b : Shared) : Shared → Type 0 where
  no_advance : AdvanceAll b b
  advance : {c d : Shared} → AdvanceAll b c → Advances c d → AdvanceAll b d

abbrev pub all_tears : {b c : Shared} → AdvanceAll b c → ℕ
all_tears no_advance = 0
all_tears (advance run step) = all_tears run + tears step

module _ (lib : Libraries) where
  pub record Connected : Type 0 where
    pub state : State lib
    pub is_open : Bool

  -- The environment is that of all threads, whatever a thread's own state says. The queue in a thread's
  -- state is its own pipe to the writer thread.
  pub record World : Type 0 where
    pub env : lib.Env
    pub threads : ℕ → Connected

  abbrev pub at_work : World → State lib → State lib
  at_work w s = record s { env = w.env }

  abbrev pub after_round : ℕ → World → Bool × State lib → World
  after_round i w r = record {
    env = r.1.env;
    threads = update i (record { state = r.1; is_open = r.0 }) w.threads;
  }

  -- A round that has sent other bytes behind what was sent before.
  abbrev pub instead : Bytes → Bytes → Bool × State lib → Bool × State lib
  instead before out r = (r.0, record r.1 { socket = record r.1.socket { sent = before ++ out } })

  -- A round of some thread whose connection lasts, or of the writer thread, which takes the oldest
  -- message of any of the threads. Outside of a transaction, what a GET sends is read in the memory map
  -- when the transaction of database_get has ended: in a torn round another thread has written there
  -- before it is sent, so that it is any data of the same length. A thread's own sending changes nothing
  -- that another thread sees, so a torn round may stand before the round that tears it.
  pub data Happens (w : World) : World → Type 0 where
    thread_round :
        (i : ℕ)
        → (w.threads i).is_open ≡ true
        → Happens w (after_round i w (serve_request lib (at_work w (w.threads i).state)))
    torn_round :
        (i : ℕ) (z torn : Bytes)
        → (w.threads i).is_open ≡ true
        → (serve_request lib (at_work w (w.threads i).state)).1.sent
          ≡ (w.threads i).state.sent ++ value_reply z
        → length torn ≡ length z
        → Happens w (
            after_round i w (
              instead
                (w.threads i).state.sent
                (value_reply torn)
                (serve_request lib (at_work w (w.threads i).state))))
    writer_round :
        (i : ℕ) (msg : WriterMsg) (rest : List WriterMsg)
        → (w.threads i).state.queue ≡ msg ∷ rest
        → Happens w (record {
          env = (writer_step lib.lmdb msg w.env).1;
          threads =
              update i
                (record (w.threads i) { state = record (w.threads i).state { queue = rest } })
                w.threads;
        })

  pub data HappenAll (w : World) : World → Type 0 where
    no_round : HappenAll w w
    round_more : {x y : World} → HappenAll w x → Happens x y → HappenAll w y

  abbrev pub worker : {w x : World} → Happens w x → Option ℕ
  worker (thread_round i alive) = some i
  worker (torn_round i z torn alive sent same) = some i
  worker (writer_round i msg rest first) = none

  abbrev pub is_torn : {w x : World} → Happens w x → ℕ
  is_torn (torn_round i z torn alive sent same) = 1
  is_torn _ = 0

  -- How many rounds of a thread there were, and how many torn ones of any.
  abbrev pub rounds : {w x : World} → ℕ → HappenAll w x → ℕ
  rounds i no_round = 0
  rounds i (round_more run step) = rounds i run + is_by i (worker step)

  abbrev pub torn_rounds : {w x : World} → HappenAll w x → ℕ
  torn_rounds no_round = 0
  torn_rounds (round_more run step) = torn_rounds run + is_torn step
