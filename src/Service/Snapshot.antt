-- ===== src/Service/Snapshot.antt =====
-- What a client reads between START and the end of its transaction.
use fine_db.Prelude.{
  subst, Bool, ◌||◌, ◌^◌, ◌<◌, ◌≡◌, refl, sym, ap, ◌∙◌, inl, inr, Option, Option-cases, true, none,
  some, List, [], ◌∷◌, ◌++◌, append-nil, append_assoc, Bytes, length, arith,
}
use fine_db.Lmdb.{IsLmdb, Store, View}
use fine_db.Lmdb.Snapshot.{IsSnapshot}
use fine_db.Dynabin.{IsDynabin, HasMemory}
use fine_db.Snappy.{IsSnappy}
use fine_db.Protocol.{
  Command, command_code, request_command, request_has_sync, request_has_compressed,
  request_has_serialized,
}
use fine_db.Database.{database_get}
use fine_db.Socket.{Recv}
use fine_db.Database.Atomic.{CommitsSucceed}
use fine_db.Database.Read.{database_get-transaction}
use fine_db.Database.Snapshot.{get_in-view}
use fine_db.Server.{Libraries, State}
use fine_db.Server.Reading.{unread, taken, read-front}
use fine_db.Server.Sending.{
  IsHealthy, replied, stored, taken-IsHealthy, stored-IsHealthy, replied-IsHealthy,
}
use fine_db.Command.StartStop.{set_transaction}
use fine_db.Command.Transactions.{command_start-begins}
use fine_db.Connection.{is_some, serve_request, on_request, execute, commands}
use fine_db.Client.Get.{get_request}
use fine_db.Client.Serving.{serve_request-get, serve_request-get_missing, serve_request-get_failed}
use fine_db.Writer.Interleaved.{System}
use fine_db.Writer.Snapshot.{Runs, Runs-Sees}
use fine_db.Service.{ok_reply, bad_name_reply, value_reply}

-- The replies to GETs of these keys from a store.
abbrev pub reply : Option Bytes → Bytes
reply none = bad_name_reply
reply (some z) = value_reply z

abbrev pub replies : Store → List Bytes → Bytes
replies store [] = []
replies store (key ∷ keys) = reply (store none key) ++ replies store keys

replies-snoc :
    (store : Store) (keys : List Bytes) (key : Bytes)
    → replies store (keys ++ key ∷ []) ≡ replies store keys ++ reply (store none key)
replies-snoc store [] key = append-nil (reply (store none key))
replies-snoc store (first ∷ keys) key =
    ap (λ (xs : Bytes). reply (store none first) ++ xs) (replies-snoc store keys key)
    ∙ sym (append_assoc (reply (store none first)) (replies store keys) (reply (store none key)))

append_reply :
    (store : Store) (keys : List Bytes) (key a : Bytes) {b c : Bytes}
    → b ≡ a ++ replies store keys
    → c ≡ b ++ reply (store none key)
    → c ≡ a ++ replies store (keys ++ key ∷ [])
append_reply store keys key a before last =
    last
    ∙ ap (λ (xs : Bytes). xs ++ reply (store none key)) before
    ∙ append_assoc a (replies store keys) (reply (store none key))
    ∙ ap (λ (xs : Bytes). a ++ xs) (sym (replies-snoc store keys key))

module _ (lib : Libraries) where
  -- A connection on which GETs of these keys were served, after other threads had worked.
  pub data Session (s : State lib) : List Bytes → State lib → Type 0 where
    others_worked :
        (y z : System lib.lmdb)
        → y.env ≡ s.env
        → Runs lib.lmdb y z
        → Session s [] (record s { env = z.env })
    get_served :
        {keys : List Bytes} {u w : State lib} (key rest : Bytes)
        → Session s keys u
        → length key < 2 ^ 16
        → unread lib u ≡ get_request key ++ rest
        → serve_request lib u ≡ (true, w)
        → Session s (keys ++ key ∷ []) w

module _ (lib : Libraries) (laws : IsLmdb lib.lmdb) (docs : IsSnapshot lib.lmdb laws)
    (doc : IsDynabin lib.dynabin) (memory : HasMemory lib.dynabin) where
  open laws use {committed, view}

  -- A connection in a transaction that has not ended, on which nothing fails.
  pub record InTransaction (t : lib.Txn) (v : View) (s : State lib) : Type 0 where
    pub healthy : IsHealthy lib s
    pub inside : s.transaction ≡ some t
    pub default : s.dbname ≡ none
    pub sees : view s.env t ≡ some v

  module _ (t : lib.Txn) (v : View) (readonly : v.readonly ≡ true) where
    -- The state after a GET that is answered by `out`.
    answered_get :
        (key out : Bytes) (u w : State lib) (b : lib.Buffer) (rs : List Recv)
        → InTransaction t v u
        → serve_request lib u ≡ (true, w)
        → serve_request lib u ≡ (
          true,
          replied lib
              (stored lib
                (taken lib u b rs)
                (database_get lib.lmdb u.unset u.transaction u.dbname key u.env).1)
              out,
        )
        → InTransaction t v w × (w.sent ≡ u.sent ++ out)
    answered_get key out u w b rs p ran served =
        let e = (database_get lib.lmdb u.unset u.transaction u.dbname key u.env).1 in
        let kept : view e t ≡ some v =
          rw (p.inside, p.default)
            (get_in-view lib.lmdb laws t v readonly u.unset none key u.env p.sees) in
        let same : w ≡ replied lib (stored lib (taken lib u b rs) e) out =
          ap (λ (r : Bool × State lib). r.1) (sym ran ∙ served) in
        rw same (
          record {
            healthy =
                replied-IsHealthy lib out
                  (stored-IsHealthy lib e (taken-IsHealthy lib b rs p.healthy));
            inside = p.inside;
            default = p.default;
            sees = kept;
          },
          refl,
        )

    get_round :
        IsSnappy lib.snappy
        → (key rest : Bytes) (u w : State lib) → InTransaction t v u
        → length key < 2 ^ 16
        → unread lib u ≡ get_request key ++ rest
        → serve_request lib u ≡ (true, w)
        → InTransaction t v w × (w.sent ≡ u.sent ++ reply (v.store none key))
    get_round zip key rest u w p short front ran =
        let told_of = database_get-transaction lib.lmdb laws u.unset t none key u.env v p.sees in
        elim told_of [
          | inl same ↦ elim (Option-cases (v.store none key)) [
            | inl missing ↦
                let (b, rs, served, left) =
                  serve_request-get_missing lib doc memory key rest u p.healthy short front
                    (ground (arith, same, missing, p.inside, p.default)) in
                rw missing (answered_get key bad_name_reply u w b rs p ran served)
            | inr (z, there) ↦
                let (b, rs, served, left) =
                  serve_request-get lib doc memory zip key z rest u p.healthy short front
                    (ground (arith, same, there, p.inside, p.default)) in
                rw there (answered_get key (value_reply z) u w b rs p ran served)
          ]
          | inr failed ↦
              let (b, rs, served) =
                serve_request-get_failed lib doc memory key rest u p.healthy short front
                  (ground (arith, failed, p.inside, p.default)) in
              absurd (ground (arith, ran, served))
        ]

    Session-InTransaction :
        IsSnappy lib.snappy
        → CommitsSucceed lib.lmdb laws
        → {s s' : State lib} {keys : List Bytes} → InTransaction t v s
        → docs.unopened s.env t ≡ true
        → Session lib s keys s'
        → InTransaction t v s' × (s'.sent ≡ s.sent ++ replies v.store keys)
    Session-InTransaction zip good p quiet (others_worked y z same run) = (
      record {
        healthy = record {
          connected = p.healthy.connected;
          memory = p.healthy.memory;
          line = p.healthy.line;
        };
        inside = p.inside;
        default = p.default;
        sees = (Runs-Sees lib.lmdb laws docs t v good run (rw same (p.sees, quiet))).0;
      },
      sym (append-nil _),
    )
    Session-InTransaction zip good p quiet (get_served key rest before short front ran) =
        let (q, sent) = Session-InTransaction zip good p quiet before in
        let (next, more) = get_round zip key rest _ _ q short front ran in
        (next, append_reply v.store _ key _ sent more)

  -- Where commits succeed, on a connection outside a transaction and in the default database, whose
  -- allocations and transmissions succeed: when a START has begun a transaction, the writer thread and
  -- other connection threads then make any steps (changes, reads and messages on the default database,
  -- outside transactions), and after these GETs of the client library are served on the connection, what
  -- the client gets is RESP_OK, and then for each GET in turn the data that was committed under its key
  -- when the START came, or RESP_ERR_BAD_NAME if there was none, whatever was committed since. (Behind the
  -- first GET lmdb.h forbids the steps of the others until the transaction has ended.)
  pub reads_after_start :
      IsSnappy lib.snappy
      → CommitsSucceed lib.lmdb laws
      → (t : lib.Txn) (rest : Bytes) (keys : List Bytes) (s s' : State lib) → IsHealthy lib s
      → s.transaction ≡ none
      → s.dbname ≡ none
      → unread lib s ≡ command_code Command.start ∷ rest
      → (lib.mdb_txn_begin true s.env).0 ≡ some t
      → Session lib (serve_request lib s).1 keys s'
      → s'.sent ≡ (s.sent ++ ok_reply) ++ replies (committed s.env) keys
  unfolding serve_request on_request execute commands request_command request_has_sync
      request_has_compressed request_has_serialized command_code
  reads_after_start zip good t rest keys s s' h outside default front begun run =
      let (b, rs, ran, left) = read-front lib doc memory (5 ∷ []) rest s h.connected front in
      let s1 = taken lib s b rs in
      let (started, seen, same, more) =
        command_start-begins lib laws (is_some lib s1.transaction || request_has_sync 5)
          (request_has_compressed 5) (request_has_serialized 5) t s1 (taken-IsHealthy lib b rs h)
          outside begun in
      let e1 = (lib.mdb_txn_begin true s.env).1 in
      let s2 = replied lib (set_transaction lib (some t) e1 s1) ok_reply in
      let served : serve_request lib s ≡ (true, s2) = ground (arith, ran, started) in
      let v : View = record { readonly = true; store = committed s.env } in
      let p : InTransaction t v s2 = record {
        healthy = record { connected = h.connected; memory = h.memory; line = h.line };
        inside = refl;
        default = default;
        sees = (laws.begin_some true s.env t begun).1;
      } in
      let from_s2 : Session lib s2 keys s' =
        subst (λ (x : State lib). Session lib x keys s') (ap (λ (r : Bool × State lib). r.1) served)
          run in
      (Session-InTransaction t v refl zip good p (docs.begin_unopened true s.env t begun) from_s2).1
