-- ===== src/Service/Linearizes.antt =====
-- The runs of many connection threads and the writer thread, beside the specification of many
-- connections.
use fine_db.Prelude.{
  update_both, ◌≡◌, refl, sym, ap, ◌∙◌, subst, some, List, ◌∷◌, Bytes, arith, if◌then◌else◌,
}
use fine_db.Lmdb.{IsLmdb, Store}
use fine_db.Dynabin.{IsDynabin, HasMemory}
use fine_db.Snappy.{IsSnappy}
use fine_db.Database.Atomic.{CommitsSucceed}
use fine_db.Server.{Libraries, State, WriterMsg}
use fine_db.Writer.{writer_step}
use fine_db.Writer.Replay.{apply_msg, step-replay}
use fine_db.Writer.Queues.{QueueOnDefault}
use fine_db.Service.{Request}
use fine_db.Service.Concurrent.{
  all_tears, is_torn, torn_rounds, torn_round, worker, Shared, change_written, AdvanceAll,
  no_advance, advance, World, at_work, Happens, thread_round, writer_round, HappenAll, no_round,
  round_more,
}
use fine_db.Service.Turns.{IsReady, turn, Stands, Represents, Follows, take_turn}
use fine_db.Service.Torn.{torn_turn}

module _ (lib : Libraries) (laws : IsLmdb lib.lmdb) (doc : IsDynabin lib.dynabin)
    (memory : HasMemory lib.dynabin) where
  open laws use {committed}

  with_pipe :
      {s : State lib} {left : List Request} {part : Bytes} (msgs : List WriterMsg)
      → IsReady lib laws doc memory s left part
      → IsReady lib laws doc memory (record s { queue = msgs }) left part
  with_pipe msgs h = record {
    plain = record {
      healthy = record {
        connected = h.plain.healthy.connected;
        memory = h.plain.healthy.memory;
        line = h.plain.healthy.line;
      };
      outside = h.plain.outside;
      default = h.plain.default;
      posts = h.plain.posts;
    };
    fit = h.fit;
    cut = h.cut;
    front = h.front;
  }

  ready_at_work :
      (w : World lib) (s : State lib) (left : List Request) (part : Bytes)
      → IsReady lib laws doc memory s left part
      → IsReady lib laws doc memory (at_work lib w s) left part
  ready_at_work w s left part h = record {
    plain = record {
      healthy = record {
        connected = h.plain.healthy.connected;
        memory = h.plain.healthy.memory;
        line = h.plain.healthy.line;
      };
      outside = h.plain.outside;
      default = h.plain.default;
      posts = h.plain.posts;
    };
    fit = h.fit;
    cut = h.cut;
    front = h.front;
  }

  pub Happens-Follows :
      IsSnappy lib.snappy
      → CommitsSucceed lib.lmdb laws
      → {w w' : World lib} {b : Shared} → (last : Happens lib w w')
      → Represents lib laws doc memory w b
      → Follows lib laws doc memory w' b (worker lib last) (is_torn lib last)
  Happens-Follows zip good {w} {w'} {b} (thread_round i alive) rep =
      let c = b.talks i in
      let at_i = rep.stands i in
      let ready = ready_at_work w (w.threads i).state c.left c.part (at_i.goes_on alive) in
      take_turn lib laws doc memory w b i c.left rep (sym at_i.same_open ∙ alive) at_i.same_sent
        ready.cut refl (turn lib laws doc memory zip good c.left c.part _ ready)
  Happens-Follows zip good {w} {w'} {b} (torn_round i z torn alive sent same) rep =
      let c = b.talks i in
      let at_i = rep.stands i in
      let ready = ready_at_work w (w.threads i).state c.left c.part (at_i.goes_on alive) in
      torn_turn lib laws doc memory w b i c.left z torn rep (sym at_i.same_open ∙ alive)
        at_i.same_sent ready.cut refl sent same
        (turn lib laws doc memory zip good c.left c.part _ ready)
  Happens-Follows zip good {w} {w'} {b} (writer_round i msg rest first) rep =
      let at_i = rep.stands i in
      let q : QueueOnDefault (msg ∷ rest) = subst QueueOnDefault first at_i.on_default in
      let r = writer_step lib.lmdb msg w.env in
      let change : Store → Store = λ s. if r.0 then apply_msg (some msg) s else s in
      (
        _,
        change_written i msg rest r.0 (sym at_i.same_pending ∙ first),
        refl,
        refl,
        record {
          same_store = (step-replay lib.lmdb laws good msg w.env q.0).0 ∙ ap change rep.same_store;
          stands =
              update_both (Stands lib laws doc memory) i _ (record (b.talks i) { pending = rest })
                w.threads b.talks
                (record {
                  same_open = at_i.same_open;
                  same_sent = at_i.same_sent;
                  same_pending = refl;
                  on_default = q.1;
                  goes_on = λ alive. with_pipe rest (at_i.goes_on alive);
                })
                rep.stands;
        },
      )

  -- Where commits succeed: any number of connection threads, each with a conversation that is outside of
  -- transactions and in the default database, on whose connection nothing fails, and each with its own
  -- pipe to the writer thread, work on one environment, and the writer thread takes the oldest message
  -- of any pipe, all rounds in any order. What then happens is what the specification of many
  -- connections says, one thing after the other: each request of each client is answered at one moment,
  -- in the order in which that client sent it, from the data and the thread's own waiting messages of
  -- that moment; a refused GET, and a part of a request, end a connection with RESP_ERR_SERVER and change
  -- nothing; and the messages of each thread are carried out or refused in their order, those of different
  -- threads in any. There are as many GETs that are answered by other bytes of the same length as there
  -- are torn rounds, so none without them. At the end the data committed, the waiting messages of each
  -- thread, and what each client was sent are those of the specification.
  pub threads_follow :
      IsSnappy lib.snappy
      → CommitsSucceed lib.lmdb laws
      → (w w' : World lib) (b : Shared) → Represents lib laws doc memory w b
      → (run : HappenAll lib w w')
      → (b' : Shared) × (run' : AdvanceAll b b') × (all_tears run' ≡ torn_rounds lib run)
        × Represents lib laws doc memory w' b'
  threads_follow zip good w w' b rep no_round = (b, no_advance, refl, rep)
  threads_follow zip good w w' b rep (round_more before last) =
      let (c, run, torn, rep_c) = threads_follow zip good w _ b rep before in
      let (d, step, who, tear, rep_d) = Happens-Follows zip good last rep_c in
      (d, advance run step, omega (arith, torn, tear), rep_d)
