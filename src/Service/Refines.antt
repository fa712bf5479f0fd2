-- ===== src/Service/Refines.antt =====
-- The loop on requests, beside the specification.
use fine_db.Prelude.{
  refl, subst, ℕ, zero, suc, ◌<◌, ◌≡◌, sym, ap, ◌∙◌, true, false, Option, none, some, List, [], ◌∷◌,
  ◌++◌, append-nil, append_assoc, Bytes, length, arith, inl, inr,
}
use fine_db.Lmdb.{IsLmdb}
use fine_db.Dynabin.{IsDynabin, HasMemory}
use fine_db.Snappy.{IsSnappy}
use fine_db.Database.Atomic.{CommitsSucceed}
use fine_db.Socket.{Socket}
use fine_db.Connection.Rounds.{serve_connection_idle}
use fine_db.Socket.Read.{stream}
use fine_db.Server.{Libraries, Thread, State}
use fine_db.Server.Reading.{unread}
use fine_db.Connection.{
  serve_request, request_loop, serve_connection, connection_thread_disconnect,
  connection_thread_execution, idle,
}
use fine_db.Service.{
  Sends, Request, encode_all, AllFit, Serves, ServesAll, all_done, connection, all_served, answered,
  get_failed, server_reply, Talk, Unfinished, cut_off, encode,
}
use fine_db.Service.Cut.{last_round}
use fine_db.Service.Plain.{contents, IsPlain, IsPlain-Calm, Calm, Answered, GetFailed}
use fine_db.Service.Rounds.{round}

module _ (lib : Libraries) (laws : IsLmdb lib.lmdb) (doc : IsDynabin lib.dynabin)
    (memory : HasMemory lib.dynabin) where
  open laws use {committed}

  -- What the loop makes of the requests that are left, and of a part of one behind them.
  abbrev Refines : Bytes → ℕ → State lib → List Request → Type 0
  Refines part fuel s rs =
      (out : Bytes) × Serves part (contents lib laws s) rs out
        (contents lib laws (request_loop lib fuel s))
      × ((request_loop lib fuel s).sent ≡ s.sent ++ out)
      × Calm lib laws (request_loop lib fuel s)

  loop_on :
      (fuel : ℕ) (s s' : State lib)
      → serve_request lib s ≡ (true, s')
      → request_loop lib (suc fuel) s ≡ request_loop lib fuel s'
  unfolding request_loop
  loop_on fuel s s' ran = ground (arith, ran)

  loop_off :
      (fuel : ℕ) (s s' : State lib)
      → serve_request lib s ≡ (false, s')
      → request_loop lib (suc fuel) s ≡ s'
  unfolding request_loop
  loop_off fuel s s' ran = ground (arith, ran)

  -- What a thread reads and sends does not matter.
  still-Calm :
      {s : State lib} {b : lib.Buffer} {sock : Socket}
      → Calm lib laws s
      → Calm lib laws (record s { buff = b; socket = sock })
  still-Calm calm = record {
    no_transaction = calm.no_transaction;
    memory_lasts = calm.memory_lasts;
    posts_last = calm.posts_last;
  }

  loop_ends :
      (part : Bytes) (fuel : ℕ) (s : State lib)
      → Unfinished part
      → unread lib s ≡ part
      → IsPlain lib laws s
      → Refines part (suc fuel) s []
  loop_ends part fuel s cut front p =
      let calm = IsPlain-Calm lib laws p in
      elim (last_round lib doc memory part s cut p.healthy front) [
        | inl (whole, b, rs, ran) ↦
            let e = loop_off fuel s _ ran in
            ([], rw e (all_served whole), rw e (sym (append-nil s.sent)), rw e (still-Calm calm))
        | inr (lost, (b, rs, ran)) ↦
            let e = loop_off fuel s _ ran in
            (server_reply, rw e (cut_off lost), rw e refl, rw e (still-Calm calm))
      ]

  loop_fails :
      (part : Bytes) (fuel : ℕ) (s : State lib) (r : Request) (rs : List Request)
      → GetFailed lib laws s r
      → Refines part (suc fuel) s (r ∷ rs)
  loop_fails part fuel s r rs (s', key, is_get, ran, sent, same, calm) =
      let e = loop_off fuel s s' ran in
      (server_reply, rw (e, same, is_get) (get_failed key), rw e sent, rw e calm)

  loop_answers :
      (part : Bytes) (fuel : ℕ) (s : State lib) (r : Request) (rs : List Request) (rest : Bytes)
      → (a : Answered lib laws s r rest) → Refines part fuel a.0 rs
      → Refines part (suc fuel) s (r ∷ rs)
  loop_answers part fuel s r rs rest (s', out, ran, p, front, sent, step)
        (more, serves, sent_more, calm) =
      let e = loop_on fuel s s' ran in
      (
        out ++ more,
        rw e (answered step serves),
        rw e (sent_more ∙ ap (λ (xs : Bytes). xs ++ more) sent ∙ append_assoc s.sent out more),
        rw e calm,
      )

  -- The disconnection of a thread with no transaction changes nothing in the environment.
  left_alone :
      (s : State lib)
      → Calm lib laws s
      → let s' = connection_thread_disconnect lib s in
        (s'.env ≡ s.env)
        × (s'.sent ≡ s.sent)
        × (s'.allocs ≡ [])
        × (s'.pushes ≡ [])
        × (s'.queue ≡ s.queue)
  unfolding connection_thread_disconnect
  left_alone s calm = ground (arith, calm)

  request_loop-Serves :
      IsSnappy lib.snappy
      → CommitsSucceed lib.lmdb laws
      → (part : Bytes) (rs : List Request) (fuel : ℕ) (s : State lib) → AllFit rs
      → Unfinished part
      → IsPlain lib laws s
      → unread lib s ≡ encode_all rs ++ part
      → length rs < fuel
      → Refines part fuel s rs
  request_loop-Serves zip good part rs zero s fit cut p front enough = absurd (omega arith)
  request_loop-Serves zip good part [] (suc fuel) s fit cut p front enough =
      loop_ends part fuel s cut front p
  request_loop-Serves zip good part (r ∷ rs) (suc fuel) s fit cut p front enough =
      elim (round lib laws doc memory zip good r (encode_all rs ++ part) s fit.0 p
        (front ∙ append_assoc (encode r) (encode_all rs) part)) [
          | inl a ↦
              loop_answers part fuel s r rs (encode_all rs ++ part) a
                (request_loop-Serves zip good part rs fuel a.0 fit.1 cut a.3 a.4 (omega arith))
          | inr failed ↦ loop_fails part fuel s r rs failed
        ]

  serve_connection-Serves :
      IsSnappy lib.snappy
      → CommitsSucceed lib.lmdb laws
      → (part : Bytes) (rs : List Request) (fuel fd : ℕ) (s : State lib) → AllFit rs
      → Unfinished part
      → s.transaction ≡ none
      → s.dbname ≡ none
      → s.allocs ≡ []
      → s.pushes ≡ []
      → s.sends ≡ []
      → stream s.recvs ≡ encode_all rs ++ part
      → length rs < fuel
      → let s' = serve_connection lib fuel fd s in
        (out : Bytes) × Serves part (contents lib laws s) rs out (contents lib laws s')
        × (s'.sent ≡ s.sent ++ out)
        × (s'.allocs ≡ [])
        × (s'.pushes ≡ [])
  unfolding serve_connection
  serve_connection-Serves zip good part rs fuel fd s fit cut outside default memory_lasts posts line
        sent enough =
      let begun : State lib = record s {
        thread = record s.thread { fd = some fd };
        buff = lib.ydynabin_new;
      } in
      let p : IsPlain lib laws begun = record {
        healthy = record { connected = λ h. cc; memory = memory_lasts; line = line };
        outside = outside;
        default = default;
        posts = posts;
      } in
      let (out, serves, sent_out, calm) =
        request_loop-Serves zip good part rs fuel begun fit cut p (rw doc.bytes-new sent) enough in
      let (same, sent_same, memory_left, posts_left, same_queue) =
        left_alone (request_loop lib fuel begun) calm in
      (out, rw (same, same_queue) serves, sent_same ∙ sent_out, memory_left, posts_left)

  -- The connections of a thread, one after the other.
  pub connection_thread_execution-ServesAll :
      IsSnappy lib.snappy
      → CommitsSucceed lib.lmdb laws
      → (fuel : ℕ) (incoming : List (Option (ℕ × Socket))) (all : List Talk) (s : State lib)
      → Sends fuel incoming all
      → s.thread ≡ idle lib
      → s.allocs ≡ []
      → s.pushes ≡ []
      → let r = connection_thread_execution lib fuel incoming s in
        ServesAll (contents lib laws s) all r.0 (contents lib laws r.1)
  unfolding connection_thread_execution
  connection_thread_execution-ServesAll zip good fuel [] [] s sends free memory_lasts posts =
      all_done
  connection_thread_execution-ServesAll zip good fuel [] (talk ∷ all) s sends free memory_lasts
        posts =
      absurd sends
  connection_thread_execution-ServesAll zip good fuel (some (fd, sock) ∷ more) [] s sends free
        memory_lasts posts =
      absurd sends
  connection_thread_execution-ServesAll zip good fuel (none ∷ more) all s sends free memory_lasts
        posts =
      connection_thread_execution-ServesAll zip good fuel more all s sends free memory_lasts posts
  connection_thread_execution-ServesAll zip good fuel (some (fd, sock) ∷ more) (talk ∷ all) s
        (fit, cut, line, fresh, sent, enough, sends) free memory_lasts posts =
      let s1 : State lib = record s { socket = sock } in
      let (out, serves, sent_out, memory_left, posts_left) =
        serve_connection-Serves zip good talk.part talk.whole fuel fd s1 fit cut
          (ap (λ (t : Thread lib.Txn). t.transaction) free)
          (ap (λ (t : Thread lib.Txn). t.dbname) free) memory_lasts posts line sent enough in
      let t = serve_connection lib fuel fd s1 in
      let rest =
        connection_thread_execution-ServesAll zip good fuel more all t sends
          (serve_connection_idle lib doc fuel fd s1) memory_left posts_left in
      let e : t.sent ≡ out = sent_out ∙ ap (λ (xs : Bytes). xs ++ out) fresh in
      connection
        (subst (λ xs. Serves talk.part (contents lib laws s) talk.whole xs (contents lib laws t))
          (sym e) serves)
        rest
