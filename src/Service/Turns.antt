-- ===== src/Service/Turns.antt =====
-- One round of a connection thread, beside the specification of many connections.
use fine_db.Prelude.{
  update_both, update, Option, ℕ, ◌≡◌, ◌≢◌, refl, sym, ap, ◌∙◌, inl, inr, subst, Bool, true, false,
  some, List, [], ◌∷◌, ◌++◌, Bytes, append_assoc, arith,
}
use fine_db.Lmdb.{IsLmdb}
use fine_db.Dynabin.{IsDynabin, HasMemory}
use fine_db.Snappy.{IsSnappy}
use fine_db.Database.Atomic.{CommitsSucceed}
use fine_db.Socket.{Recv}
use fine_db.Server.{Libraries, State}
use fine_db.Server.Reading.{unread, taken}
use fine_db.Connection.{serve_request}
use fine_db.Writer.Queues.{QueueOnDefault}
use fine_db.Service.{
  Request, Contents, Answers, server_reply, encode_all, encode, AllFit, Unfinished,
}
use fine_db.Service.Plain.{IsPlain, Answered, GetFailed, contents}
use fine_db.Service.Rounds.{round}
use fine_db.Service.Cut.{last_round, Refuses}
use fine_db.Service.Settles.{Answers-QueueOnDefault}
use fine_db.Service.Concurrent.{
  mover, tears, answered_one, shut, Conversation, Shared, says, Advances, one_answered, get_refused,
  client_left, client_cut, Connected, World, at_work, after_round,
}

module _ (lib : Libraries) (laws : IsLmdb lib.lmdb) (doc : IsDynabin lib.dynabin)
    (memory : HasMemory lib.dynabin) where
  open laws use {committed}

  -- The thread waits for what is left of a conversation.
  pub record IsReady (s : State lib) (left : List Request) (part : Bytes) : Type 0 where
    pub plain : IsPlain lib laws s
    pub fit : AllFit left
    pub cut : Unfinished part
    pub front : unread lib s ≡ encode_all left ++ part

  -- What the next round of a thread can be.
  pub data Outcome (s : State lib) (part : Bytes) : List Request → Type 0 where
    answers_one :
        (r : Request) (rs : List Request)
        → Answered lib laws s r (encode_all rs ++ part)
        → AllFit rs
        → Outcome s part (r ∷ rs)
    fails_get : (r : Request) (rs : List Request) → GetFailed lib laws s r → Outcome s part (r ∷ rs)
    ends_here :
        (b : lib.Buffer) (rs : List Recv)
        → part ≡ []
        → serve_request lib s ≡ (false, taken lib s b rs)
        → Outcome s part []
    is_cut : part ≢ [] → Refuses lib doc memory s → Outcome s part []

  pub turn :
      IsSnappy lib.snappy
      → CommitsSucceed lib.lmdb laws
      → (left : List Request) (part : Bytes) (s : State lib) → IsReady s left part
      → Outcome s part left
  turn zip good [] part s h =
      elim (last_round lib doc memory part s h.cut h.plain.healthy h.front) [
        | inl (whole, b, rs, ran) ↦ ends_here b rs whole ran
        | inr (lost, refused) ↦ is_cut lost refused
      ]
  turn zip good (r ∷ rs) part s h =
      elim (round lib laws doc memory zip good r (encode_all rs ++ part) s h.fit.0 h.plain
        (h.front ∙ append_assoc (encode r) (encode_all rs) part)) [
          | inl a ↦ answers_one r rs a h.fit.1
          | inr failed ↦ fails_get r rs failed
        ]

  -- A thread beside its conversation, its pipe beside the messages that wait.
  pub record Stands (t : Connected lib) (c : Conversation) : Type 0 where
    pub same_open : t.is_open ≡ c.is_open
    pub same_sent : t.state.sent ≡ c.said
    pub same_pending : t.state.queue ≡ c.pending
    pub on_default : QueueOnDefault t.state.queue
    pub goes_on : t.is_open ≡ true → IsReady t.state c.left c.part

  pub record Represents (w : World lib) (b : Shared) : Type 0 where
    pub same_store : committed w.env ≡ b.store
    pub stands : (i : ℕ) → Stands (w.threads i) (b.talks i)

  -- The specification goes on as the world does.
  abbrev pub Follows : World lib → Shared → Option ℕ → ℕ → Type 0
  Follows w b who torn =
      (b' : Shared) × (step : Advances b b') × (mover step ≡ who)
      × (tears step ≡ torn)
      × Represents w b'

  -- After a thread's round that ends its connection, and has sent `out`.
  closed :
      (w : World lib) (b : Shared) (i : ℕ) (s' : State lib) (c : Conversation)
      → Represents w b
      → (committed s'.env ≡ committed w.env)
      → (s'.queue ≡ (w.threads i).state.queue)
      → (s'.sent ≡ c.said)
      → c.is_open ≡ false
      → c.pending ≡ (b.talks i).pending
      → Represents (after_round lib i w (false, s')) (record b { talks = update i c b.talks })
  closed w b i s' c rep same same_queue told is_shut waiting = record {
    same_store = same ∙ rep.same_store;
    stands =
        update_both Stands i _ c w.threads b.talks
          (record {
            same_open = sym is_shut;
            same_sent = told;
            same_pending = same_queue ∙ (rep.stands i).same_pending ∙ sym waiting;
            on_default = rw same_queue (rep.stands i).on_default;
            goes_on = λ alive. absurd (ground (arith, alive));
          })
          rep.stands;
  }

  -- What the client of thread `i` is answered from.
  pub same_contents :
      (w : World lib) (b : Shared) (i : ℕ)
      → Represents w b
      → contents lib laws (at_work lib w (w.threads i).state) ≡ (b.store, (b.talks i).pending)
  same_contents w b i rep = rw (rep.same_store, (rep.stands i).same_pending) refl

  -- After a thread's round that answers a request, when the client gets `out`.
  pub answered :
      (w : World lib) (b : Shared) (i : ℕ) (s' : State lib) (rs : List Request) (out : Bytes)
      (c : Contents)
      → Represents w b
      → (b.talks i).is_open ≡ true
      → contents lib laws s' ≡ c
      → (s'.sent ≡ (b.talks i).said ++ out)
      → QueueOnDefault s'.queue
      → IsReady s' rs (b.talks i).part
      → Represents
          (after_round lib i w (true, s'))
          (record { store = c.0; talks = update i (answered_one rs out c.1 (b.talks i)) b.talks })
  answered w b i s' rs out c rep alive same told fits ready = record {
    same_store = ap (λ (d : Contents). d.0) same;
    stands =
        update_both Stands i _ (answered_one rs out c.1 (b.talks i)) w.threads b.talks
          (record {
            same_open = sym alive;
            same_sent = told;
            same_pending = ap (λ (d : Contents). d.1) same;
            on_default = fits;
            goes_on = λ goes. ready;
          })
          rep.stands;
  }

  pub take_turn :
      (w : World lib) (b : Shared) (i : ℕ) (left : List Request)
      → Represents w b
      → (b.talks i).is_open ≡ true
      → (w.threads i).state.sent ≡ (b.talks i).said
      → Unfinished (b.talks i).part
      → (b.talks i).left ≡ left
      → Outcome (at_work lib w (w.threads i).state) (b.talks i).part left
      → Follows
          (after_round lib i w (serve_request lib (at_work lib w (w.threads i).state)))
          b
          (some i)
          0
  take_turn w b i left rep alive told cut is_left
        (answers_one r rs (s', out, ran, p, front, sent, step) fit) =
      subst (λ (x : Bool × State lib). Follows (after_round lib i w x) b (some i) 0) (sym ran)
        (
          _,
          one_answered i r rs out (contents lib laws s') alive is_left (
              subst (λ (d : Contents). Answers d r out (contents lib laws s'))
                (same_contents w b i rep) step),
          refl,
          refl,
          answered w b i s' rs out (contents lib laws s') rep alive refl
              (sent ∙ ap (λ (xs : Bytes). xs ++ out) told)
              (Answers-QueueOnDefault step (rep.stands i).on_default)
              (record { plain = p; fit = fit; cut = cut; front = front }),
        )
  take_turn w b i left rep alive told cut is_left
        (fails_get r rs (s', key, is_get, ran, sent, same, calm)) =
      subst (λ (x : Bool × State lib). Follows (after_round lib i w x) b (some i) 0) (sym ran)
        (
          _,
          get_refused i key rs alive (is_left ∙ ap (λ (x : Request). x ∷ rs) is_get),
          refl,
          refl,
          closed w b i s' (says server_reply (shut (b.talks i))) rep
              (ap (λ (d : Contents). d.0) same) (ap (λ (d : Contents). d.1) same)
              (sent ∙ ap (λ (xs : Bytes). xs ++ server_reply) told) refl refl,
        )
  take_turn w b i left rep alive told cut is_left (ends_here buff rs whole ran) =
      subst (λ (x : Bool × State lib). Follows (after_round lib i w x) b (some i) 0) (sym ran)
        (
          _,
          client_left i alive is_left whole,
          refl,
          refl,
          closed w b i _ (shut (b.talks i)) rep refl refl told refl refl,
        )
  take_turn w b i left rep alive told cut is_left (is_cut lost (buff, rs, ran)) =
      subst (λ (x : Bool × State lib). Follows (after_round lib i w x) b (some i) 0) (sym ran)
        (
          _,
          client_cut i alive is_left lost,
          refl,
          refl,
          closed w b i _ (says server_reply (shut (b.talks i))) rep refl refl
              (ap (λ (xs : Bytes). xs ++ server_reply) told) refl refl,
        )
