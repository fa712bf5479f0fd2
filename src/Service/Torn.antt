-- ===== src/Service/Torn.antt =====
-- A round of a connection thread that sends other data than it found, beside the specification.
use fine_db.Prelude.{
  length, length-append, append-nil, none, ◌<◌, ◌+◌, ℕ, ◌≡◌, ◌≢◌, refl, sym, ap, ◌∙◌, subst, Bool,
  true, some, List, [], ◌∷◌, ◌++◌, Bytes, arith,
}
use fine_db.Wire.{htonl}
use fine_db.Lmdb.{IsLmdb, Store}
use fine_db.Dynabin.{IsDynabin, HasMemory}
use fine_db.Server.{Libraries, State}
use fine_db.Connection.{serve_request}
use fine_db.Service.{
  ponged, put_done, put_refused, put_queued, del_done, del_refused, del_queued, get_found,
  get_missing, get_data, value_reply, Request, Contents, Answers, server_reply, Unfinished,
}
use fine_db.Service.Plain.{IsPlain, contents}
use fine_db.Service.Settles.{Answers-QueueOnDefault}
use fine_db.Service.Concurrent.{instead, get_torn, Shared, World, at_work, after_round}
use fine_db.Service.Turns.{
  Outcome, answers_one, fails_get, ends_here, is_cut, Represents, Follows, same_contents, answered,
}

same_length : (a b c : Bytes) → a ++ b ≡ a ++ c → length b ≡ length c
same_length a b c h = omega (arith, ap length h, length-append a b, length-append a c)

length-value_reply : (z : Bytes) → length (value_reply z) ≡ 5 + length z
unfolding htonl
length-value_reply z = omega arith

too_short : (a b z : Bytes) → length b < 2 → a ++ b ≢ a ++ value_reply z
too_short a b z h same =
    omega (arith, h, same_length a b (value_reply z) same, length-value_reply z)

-- A reply that is longer than a byte is that to a GET that finds data.
gives_data :
    {c c' : Contents} {r : Request} {out : Bytes}
    → Answers c r out c'
    → 1 < length out
    → (key x : Bytes) × (r ≡ get_data key)
      × (c.0 none key ≡ some x)
      × (out ≡ value_reply x)
      × (c' ≡ c)
gives_data ponged h = absurd (omega (arith, h))
gives_data (put_done key z) h = absurd (omega (arith, h))
gives_data (put_refused key z) h = absurd (omega (arith, h))
gives_data (put_queued key z) h = absurd (omega (arith, h))
gives_data (del_done key there) h = absurd (omega (arith, h))
gives_data (del_refused key) h = absurd (omega (arith, h))
gives_data (del_queued key) h = absurd (omega (arith, h))
gives_data (get_found key z there) h = (key, z, refl, there, refl, refl)
gives_data (get_missing key gone) h = absurd (omega (arith, h))

module _ (lib : Libraries) (laws : IsLmdb lib.lmdb) (doc : IsDynabin lib.dynabin)
    (memory : HasMemory lib.dynabin) where
  open laws use {committed}

  -- What was sent does not matter.
  with_sent :
      {s : State lib} {out : Bytes}
      → IsPlain lib laws s
      → IsPlain lib laws (record s { socket = record s.socket { sent = out } })
  with_sent p = record {
    healthy = record {
      connected = p.healthy.connected;
      memory = p.healthy.memory;
      line = p.healthy.line;
    };
    outside = p.outside;
    default = p.default;
    posts = p.posts;
  }

  -- In a torn round data was sent, so a GET was answered.
  pub torn_turn :
      (w : World lib) (b : Shared) (i : ℕ) (left : List Request) (z torn : Bytes)
      → let r = serve_request lib (at_work lib w (w.threads i).state) in
        Represents lib laws doc memory w b
        → (b.talks i).is_open ≡ true
        → (w.threads i).state.sent ≡ (b.talks i).said
        → Unfinished (b.talks i).part
        → (b.talks i).left ≡ left
        → r.1.sent ≡ (w.threads i).state.sent ++ value_reply z
        → length torn ≡ length z
        → Outcome lib laws doc memory (at_work lib w (w.threads i).state) (b.talks i).part left
        → Follows lib laws doc memory
            (after_round lib i w (instead lib (w.threads i).state.sent (value_reply torn) r))
            b
            (some i)
            1
  torn_turn w b i left z torn rep alive told cut is_left sent_z same_size
        (answers_one r rs (s', out, ran, p, front, sent, step) fit) =
      let before = (w.threads i).state.sent in
      let is_out : s'.sent ≡ before ++ value_reply z =
        ap (λ (x : Bool × State lib). x.1.sent) (sym ran) ∙ sent_z in
      let size = same_length before out (value_reply z) (sym sent ∙ is_out) in
      let (key, x, is_get, there, is_value, kept) =
        gives_data step (omega (arith, size, length-value_reply z)) in
      let s'' = (instead lib before (value_reply torn) (true, s')).1 in
      let here : contents lib laws (at_work lib w (w.threads i).state)
          ≡ (b.store, (b.talks i).pending) =
        same_contents lib laws doc memory w b i rep in
      subst
        (λ (x : Bool × State lib).
          Follows lib laws doc memory
            (after_round lib i w (instead lib before (value_reply torn) x)) b (some i) 1)
        (sym ran)
        (
          _,
          get_torn i key x torn rs alive (is_left ∙ ap (λ (x : Request). x ∷ rs) is_get)
              (ap (λ (s : Store). s none key) (sym rep.same_store) ∙ there)
              (omega (
                arith,
                same_size,
                size,
                ap length is_value,
                length-value_reply z,
                length-value_reply x,
              )),
          refl,
          refl,
          answered lib laws doc memory w b i s'' rs (value_reply torn)
              (b.store, (b.talks i).pending) rep alive (kept ∙ here)
              (ap (λ (xs : Bytes). xs ++ value_reply torn) told)
              (Answers-QueueOnDefault step (rep.stands i).on_default)
              (record { plain = with_sent p; fit = fit; cut = cut; front = front }),
        )
  torn_turn w b i left z torn rep alive told cut is_left sent_z same_size
        (fails_get r rs (s', key, is_get, ran, sent, same, calm)) =
      absurd (
        too_short (w.threads i).state.sent server_reply z (omega arith)
          (sym sent ∙ ap (λ (x : Bool × State lib). x.1.sent) (sym ran) ∙ sent_z))
  torn_turn w b i left z torn rep alive told cut is_left sent_z same_size
        (ends_here buff rs whole ran) =
      absurd (
        too_short (w.threads i).state.sent [] z (omega arith)
          (append-nil _ ∙ ap (λ (x : Bool × State lib). x.1.sent) (sym ran) ∙ sent_z))
  torn_turn w b i left z torn rep alive told cut is_left sent_z same_size
        (is_cut lost (buff, rs, ran)) =
      absurd (
        too_short (w.threads i).state.sent server_reply z (omega arith)
          (ap (λ (x : Bool × State lib). x.1.sent) (sym ran) ∙ sent_z))
