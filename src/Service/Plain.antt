-- ===== src/Service/Plain.antt =====
-- A connection on which nothing fails, and what a round of the loop on requests does there.
use fine_db.Prelude.{[], ◌≡◌, true, false, none, List, ◌++◌, Bytes}
use fine_db.Lmdb.{IsLmdb}
use fine_db.Socket.{Recv}
use fine_db.Server.{Libraries, State, WriterMsg}
use fine_db.Server.Reading.{unread, taken}
use fine_db.Server.Sending.{
  queued, IsHealthy, replied, stored, taken-IsHealthy, stored-IsHealthy, replied-IsHealthy,
}
use fine_db.Connection.{serve_request}
use fine_db.Service.{Request, Contents, ok_reply, get_data, Answers, server_reply}

module _ (lib : Libraries) (laws : IsLmdb lib.lmdb) where
  open laws use {committed}

  -- A connection on which nothing fails, outside a transaction and in the default database.
  pub record IsPlain (s : State lib) : Type 0 where
    pub healthy : IsHealthy lib s
    pub outside : s.transaction ≡ none
    pub default : s.dbname ≡ none
    pub posts : s.pushes ≡ []

  abbrev pub contents : State lib → Contents
  contents s = (committed s.env, s.queue)

  -- The thread has no transaction, and its allocations and messages succeed.
  pub record Calm (s : State lib) : Type 0 where
    pub no_transaction : s.transaction ≡ none
    pub memory_lasts : s.allocs ≡ []
    pub posts_last : s.pushes ≡ []

  pub IsPlain-Calm : {s : State lib} → IsPlain s → Calm s
  IsPlain-Calm p = record {
    no_transaction = p.outside;
    memory_lasts = p.healthy.memory;
    posts_last = p.posts;
  }

  -- A round answers the request in front, and the next one is to begin behind it.
  abbrev pub Answered : State lib → Request → Bytes → Type 0
  Answered s r rest =
      (s' : State lib) × (out : Bytes) × (serve_request lib s ≡ (true, s'))
      × IsPlain s'
      × (unread lib s' ≡ rest)
      × (s'.sent ≡ s.sent ++ out)
      × Answers (contents s) r out (contents s')

  -- A round ends the connection after a GET that failed.
  abbrev pub GetFailed : State lib → Request → Type 0
  GetFailed s r =
      (s' : State lib) × (key : Bytes) × (r ≡ get_data key)
      × (serve_request lib s ≡ (false, s'))
      × (s'.sent ≡ s.sent ++ server_reply)
      × (contents s' ≡ contents s)
      × Calm s'

  pub answered_state :
      {s : State lib} (b : lib.Buffer) (rs : List Recv) (e : lib.Env) (out : Bytes)
      → IsPlain s
      → IsPlain (replied lib (stored lib (taken lib s b rs) e) out)
  answered_state b rs e out p = record {
    healthy =
        replied-IsHealthy lib out (stored-IsHealthy lib e (taken-IsHealthy lib b rs p.healthy));
    outside = p.outside;
    default = p.default;
    posts = p.posts;
  }

  -- After an asynchronous request.
  abbrev pub queued_state : lib.Buffer → List Recv → WriterMsg → State lib → State lib
  queued_state b rs msg s = queued lib (replied lib (taken lib s b rs) ok_reply) msg

  pub queued-IsPlain :
      {s : State lib} (b : lib.Buffer) (rs : List Recv) (msg : WriterMsg)
      → IsPlain s
      → IsPlain (queued_state b rs msg s)
  queued-IsPlain b rs msg p = record {
    healthy = record {
      connected = p.healthy.connected;
      memory = p.healthy.memory;
      line = p.healthy.line;
    };
    outside = p.outside;
    default = p.default;
    posts = p.posts;
  }
