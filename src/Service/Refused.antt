-- ===== src/Service/Refused.antt =====
-- PUTs behind a START: in the transaction, which is read-only, none of them can succeed.
use fine_db.Prelude.{
  ℕ, suc, ◌+◌, ◌||◌, refl, sym, ap, ◌∙◌, ◌^◌, ◌<◌, ◌≡◌, ◌≢◌, true, false, none, some, List, [], ◌∷◌,
  ◌++◌, append_assoc, append-nil, Bytes, length, arith,
}
use fine_db.Yerr.{Yerr, yenoerr}
use fine_db.Wire.{htons, htonl}
use fine_db.Lmdb.{IsLmdb}
use fine_db.Dynabin.{IsDynabin, HasMemory}
use fine_db.Protocol.{
  Command, bad_name, command_code, request_command, request_has_sync, request_has_compressed,
  request_has_serialized,
}
use fine_db.Database.{database_put}
use fine_db.Database.ReadOnly.{database_put_readonly}
use fine_db.Server.{Libraries, State}
use fine_db.Server.Reading.{unread, taken, read-front}
use fine_db.Server.Sending.{IsHealthy, replied, stored, taken-IsHealthy}
use fine_db.Command.Reply.{answer}
use fine_db.Command.StartStop.{set_transaction}
use fine_db.Command.Transactions.{command_start-begins}
use fine_db.Command.Put.{command_put}
use fine_db.Command.Puts.{IsStored, command_put-sync}
use fine_db.Connection.{is_some, on_request, execute, commands, serve_request, request_loop}
use fine_db.Service.{ok_reply, bad_name_reply}

-- A PUT of any client: its first byte, whose options may be any, the key, and the value.
pub record AskedPut : Type 0 where
  pub code : ℕ
  pub key : Bytes
  pub value : Bytes

abbrev pub put_bytes : AskedPut → Bytes → Bytes
put_bytes p rest =
    p.code ∷ (htons (length p.key) ++ (p.key ++ (htonl (length p.value) ++ (p.value ++ rest))))

abbrev pub all_puts : List AskedPut → Bytes → Bytes
all_puts [] rest = rest
all_puts (p ∷ ps) rest = put_bytes p (all_puts ps rest)

abbrev pub refusals : List AskedPut → Bytes
refusals [] = []
refusals (p ∷ ps) = bad_name_reply ++ refusals ps

answer_error : (code : Yerr) → code ≢ yenoerr → answer code ≡ bad_name
unfolding answer
answer_error code h = ground arith

module _ (lib : Libraries) where
  -- A complete PUT, whose value can be compressed if the client has not done it.
  abbrev pub IsPut : AskedPut → Type 0
  IsPut p =
      (request_command p.code ≡ command_code Command.put)
      × (length p.key < 2 ^ 16)
      × (length p.value < 2 ^ 32)
      × ((z : Bytes) × IsStored lib (request_has_compressed p.code) p.value z)

  abbrev pub ArePuts : List AskedPut → Type 0
  ArePuts [] = Unit {0}
  ArePuts (p ∷ ps) = IsPut p × ArePuts ps

module _ (lib : Libraries) where
  loop_on :
      (s s' : State lib) (fuel n : ℕ)
      → serve_request lib s ≡ (true, s')
      → n ≡ suc fuel
      → request_loop lib n s ≡ request_loop lib fuel s'
  unfolding request_loop
  loop_on s s' fuel n ran same = ap (λ k. request_loop lib k s) same ∙ ground (arith, ran)

  commands_put : commands lib (command_code Command.put) ≡ some (command_put lib)
  unfolding commands command_code
  commands_put = refl

module _ (lib : Libraries) (doc : IsLmdb lib.lmdb) (buffers : IsDynabin lib.dynabin)
    (memory : HasMemory lib.dynabin) where
  open doc use {committed, view}

  -- A connection in a read-only transaction and in the default database, on which nothing fails.
  record InReadOnly (t : lib.Txn) (s : State lib) : Type 0 where
    healthy : IsHealthy lib s
    inside : s.transaction ≡ some t
    default : s.dbname ≡ none
    sees : view s.env t ≡ some (record { readonly = true; store = committed s.env })

  -- What a PUT in the transaction does.
  put_refused :
      (t : lib.Txn) (p : AskedPut) (rest : Bytes) (s : State lib)
      → InReadOnly t s
      → IsPut lib p
      → unread lib s ≡ put_bytes p rest
      → (s' : State lib) × (serve_request lib s ≡ (true, s'))
        × InReadOnly t s'
        × (unread lib s' ≡ rest)
        × (s'.sent ≡ s.sent ++ bad_name_reply)
        × (committed s'.env ≡ committed s.env)
  unfolding serve_request on_request execute is_some
  put_refused t p rest s h (is_put, short_key, short_value, (z, e)) front =
      let code = p.code in
      let (b1, rs1, ran1, left1) =
        read-front lib buffers memory (code ∷ [])
          (htons (length p.key) ++ (p.key ++ (htonl (length p.value) ++ (p.value ++ rest)))) s
          h.healthy.connected front in
      let s1 = taken lib s b1 rs1 in
      let (b, rs, ran, left) =
        command_put-sync lib buffers memory (request_has_compressed code)
          (request_has_serialized code) p.key p.value z rest s1
          (taken-IsHealthy lib b1 rs1 h.healthy) short_key short_value e left1 in
      let r = database_put lib.lmdb (some t) false none p.key z s.env in
      let (refused, kept, still) =
        database_put_readonly lib.lmdb doc false p.key z t s.env _ h.sees refl in
      let s' = replied lib (stored lib (taken lib s b rs) r.1) bad_name_reply in
      (
        s',
        ground (
          arith,
          ran1,
          ran,
          is_put,
          h.inside,
          h.default,
          refused,
          answer_error r.0,
          commands_put lib,
        ),
        record {
          healthy = record {
            connected = h.healthy.connected;
            memory = h.healthy.memory;
            line = h.healthy.line;
          };
          inside = h.inside;
          default = h.default;
          sees = rw kept still;
        },
        left,
        refl,
        kept,
      )

  puts_refused :
      (t : lib.Txn) (ps : List AskedPut) (rest : Bytes) (s : State lib)
      → InReadOnly t s
      → ArePuts lib ps
      → unread lib s ≡ all_puts ps rest
      → (s' : State lib) × ((fuel : ℕ)
          → request_loop lib (length ps + fuel) s ≡ request_loop lib fuel s')
        × InReadOnly t s'
        × (unread lib s' ≡ rest)
        × (s'.sent ≡ s.sent ++ refusals ps)
        × (committed s'.env ≡ committed s.env)
  puts_refused t [] rest s h puts front = (
    s,
    λ fuel. ap (λ n. request_loop lib n s) (omega arith),
    h,
    front,
    sym (append-nil s.sent),
    refl,
  )
  puts_refused t (p ∷ ps) rest s h puts front =
      let (s1, ran, h1, left, sent, same) = put_refused t p (all_puts ps rest) s h puts.0 front in
      let (s', more, h', left', sent', same') = puts_refused t ps rest s1 h1 puts.1 left in
      (
        s',
        λ fuel.
            loop_on lib s s1 (length ps + fuel) (suc (length ps) + fuel) ran (omega arith)
            ∙ more fuel,
        h',
        left',
        sent'
            ∙ ap (λ (xs : Bytes). xs ++ refusals ps) sent
            ∙ append_assoc s.sent bad_name_reply (refusals ps),
        same' ∙ same,
      )

  -- On a connection whose allocations and transmissions succeed, outside a transaction and in the
  -- default database: when a START comes for which LMDB begins a transaction, and then any number of
  -- complete PUTs, with any options, with keys shorter than 2^16 and values shorter than 2^32 that
  -- can be compressed, then after so many rounds the loop on requests is in a state in which the START
  -- was answered by RESP_OK and each PUT by RESP_ERR_BAD_NAME, nothing is committed, and the thread
  -- still has its transaction, which is read-only, has not ended, and sees what was committed.
  pub put_after_start :
      (t : lib.Txn) (ps : List AskedPut) (rest : Bytes) (s : State lib)
      → IsHealthy lib s
      → s.transaction ≡ none
      → s.dbname ≡ none
      → (lib.mdb_txn_begin true s.env).0 ≡ some t
      → ArePuts lib ps
      → unread lib s ≡ command_code Command.start ∷ all_puts ps rest
      → (s' : State lib) × ((fuel : ℕ)
          → request_loop lib (suc (length ps) + fuel) s ≡ request_loop lib fuel s')
        × (s'.sent ≡ (s.sent ++ ok_reply) ++ refusals ps)
        × (unread lib s' ≡ rest)
        × (s'.transaction ≡ some t)
        × (view s'.env t ≡ some (record { readonly = true; store = committed s.env }))
        × (committed s'.env ≡ committed s.env)
  unfolding serve_request on_request execute commands request_command request_has_sync
      request_has_compressed request_has_serialized command_code
  put_after_start t ps rest s h outside default begun puts front =
      let (b, rs, ran, left) =
        read-front lib buffers memory (5 ∷ []) (all_puts ps rest) s h.connected front in
      let s1 = taken lib s b rs in
      let (started, seen, same, more) =
        command_start-begins lib doc (is_some lib s1.transaction || request_has_sync 5)
          (request_has_compressed 5) (request_has_serialized 5) t s1 (taken-IsHealthy lib b rs h)
          outside begun in
      let e1 = (lib.mdb_txn_begin true s.env).1 in
      let s2 = replied lib (set_transaction lib (some t) e1 s1) ok_reply in
      let served : serve_request lib s ≡ (true, s2) = ground (arith, ran, started) in
      let kept : committed e1 ≡ committed s.env = (doc.begin_some true s.env t begun).0 in
      let in_start : InReadOnly t s2 = record {
        healthy = record { connected = h.connected; memory = h.memory; line = h.line };
        inside = refl;
        default = default;
        sees = rw kept (doc.begin_some true s.env t begun).1;
      } in
      let (s', loop, h', left', sent, same') = puts_refused t ps rest s2 in_start puts left in
      (
        s',
        λ fuel.
            loop_on lib s s2 (length ps + fuel) (suc (length ps) + fuel) served (omega arith)
            ∙ loop fuel,
        sent,
        left',
        h'.inside,
        rw (sym (same' ∙ kept)) h'.sees,
        same' ∙ kept,
      )
