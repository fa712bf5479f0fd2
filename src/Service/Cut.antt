-- ===== src/Service/Cut.antt =====
-- The round of the loop on requests at the end of what the client sends: nothing more, or a request
-- that does not arrive whole.
use fine_db.Prelude.{
  ℕ, ◌≡◌, ◌≢◌, ◌⊎◌, refl, sym, ap, ◌∙◌, inl, inr, Bool, false, some, List, [], ◌∷◌, ◌++◌,
  append-nil, Bytes, length, length-append, arith, ◌||◌,
}
use fine_db.Dynabin.{IsDynabin, HasMemory}
use fine_db.Protocol.{
  request_command, request_has_sync, request_has_compressed, request_has_serialized,
}
use fine_db.Socket.{Recv}
use fine_db.Server.{Libraries, State}
use fine_db.Server.Reading.{unread, taken, read-front, read-short, read-only}
use fine_db.Server.Sending.{IsHealthy, replied, taken-IsHealthy}
use fine_db.Command.Reply.{Handler}
use fine_db.Command.Cut.{where_cut, GivesUp, command_put-cut, command_get-cut, command_del-cut}
use fine_db.Connection.{is_some, serve_request, on_request, execute, commands}
use fine_db.Client.Serving.{put_request-fields, get_request-fields, del_request-fields}
use fine_db.Client.Queued.{put_async-fields, del_async-fields}
use fine_db.Service.{
  Request, ping_server, put_data, put_async, get_data, del_data, del_async, encode, Fits,
  server_reply, Unfinished,
}

module _ (lib : Libraries) (doc : IsDynabin lib.dynabin) (memory : HasMemory lib.dynabin) where
  -- With nothing more to read the loop ends, and has changed neither the data nor what was sent.
  pub end_of_stream :
      (s : State lib)
      → unread lib s ≡ []
      → (b : lib.Buffer) × (rs : List Recv) × (serve_request lib s ≡ (false, taken lib s b rs))
  unfolding serve_request on_request
  end_of_stream s done =
      let (b, rs, same) = read-only lib 1 s in
      let gone = read-short lib doc memory 1 s (omega (arith, ap length done)) in
      (b, rs, ground (arith, same, gone))

  some_byte : (u : Bytes) → u ≢ [] → length u ≢ 0
  some_byte [] some_left = λ none_left. some_left refl
  some_byte (x ∷ u) some_left = λ none_left. omega arith

  -- A round that ends the connection with RESP_ERR_SERVER, and changes nothing.
  abbrev pub Refuses : State lib → Type 0
  Refuses s =
      (b : lib.Buffer) × (rs : List Recv) × (serve_request lib s
        ≡ (false, replied lib (taken lib s b rs) server_reply))

  -- What a handler refuses, the round refuses.
  refused :
      (x : ℕ) (fields missing : Bytes) (handler : Handler lib) (s : State lib)
      → IsHealthy lib s
      → commands lib (request_command x) ≡ some handler
      → unread lib s ≢ []
      → unread lib s ++ missing ≡ x ∷ fields
      → ((sync compress serialized : Bool) (t : State lib)
          → IsHealthy lib t
          → unread lib t ++ missing ≡ fields
          → GivesUp lib doc memory handler sync compress serialized t)
      → Refuses s
  unfolding serve_request on_request execute
  refused x fields missing handler s h is_handler some_left front gives_up =
      elim (where_cut (x ∷ []) fields (unread lib s) missing front) [
        | inl short ↦ absurd (some_byte (unread lib s) some_left (omega arith))
        | inr (part, there, left) ↦
            let (b1, rs1, ran1, behind) =
              read-front lib doc memory (x ∷ []) part s h.connected there in
            let s1 = taken lib s b1 rs1 in
            let (b, rs, ran) =
              gives_up (is_some lib s1.transaction || request_has_sync x) (request_has_compressed x)
                (request_has_serialized x) s1 (taken-IsHealthy lib b1 rs1 h) (rw behind left) in
            (b, rs, ground (arith, ran1, is_handler, ran))
      ]

  -- On a connection whose allocations and transmissions succeed, when the client's bytes end, or the
  -- peer closes, in the middle of a ping, put, get or delete request of the client library (an
  -- asynchronous one included), wherever it is cut and in whatever chunks its part arrives: the round
  -- is answered by RESP_ERR_SERVER and ends the connection. It takes bytes from the client, and
  -- changes nothing else: not the environment, and not the queue, so that no part of a request is ever
  -- carried out.
  pub cut_round :
      (r : Request) (missing : Bytes) (s : State lib)
      → Fits r
      → IsHealthy lib s
      → missing ≢ []
      → unread lib s ≢ []
      → unread lib s ++ missing ≡ encode r
      → Refuses s
  unfolding commands request_command
  cut_round ping_server missing s fits h lost some_left front =
      let total = ap length front in
      absurd (
        omega (
          arith,
          total,
          length-append (unread lib s) missing,
          some_byte (unread lib s) some_left,
          some_byte missing lost,
        ))
  cut_round (put_data key z) missing s fits h lost some_left front =
      refused 83 _ missing _ s h refl some_left
        (front ∙ sym (append-nil (encode (put_data key z))) ∙ put_request-fields key z [])
        (λ sync compress serialized t k left.
          command_put-cut lib doc memory sync compress serialized key z missing t k fits.0 fits.1
            lost left)
  cut_round (put_async key z) missing s fits h lost some_left front =
      refused 67 _ missing _ s h refl some_left
        (front ∙ sym (append-nil (encode (put_async key z))) ∙ put_async-fields key z [])
        (λ sync compress serialized t k left.
          command_put-cut lib doc memory sync compress serialized key z missing t k fits.0 fits.1
            lost left)
  cut_round (get_data key) missing s fits h lost some_left front =
      refused 65 _ missing _ s h refl some_left
        (front ∙ sym (append-nil (encode (get_data key))) ∙ get_request-fields key [])
        (λ sync compress serialized t k left.
          command_get-cut lib doc memory sync compress serialized key missing t k fits lost left)
  cut_round (del_data key) missing s fits h lost some_left front =
      refused 18 _ missing _ s h refl some_left
        (front ∙ sym (append-nil (encode (del_data key))) ∙ del_request-fields key [])
        (λ sync compress serialized t k left.
          command_del-cut lib doc memory sync compress serialized key missing t k fits lost left)
  cut_round (del_async key) missing s fits h lost some_left front =
      refused 2 _ missing _ s h refl some_left
        (front ∙ sym (append-nil (encode (del_async key))) ∙ del_async-fields key [])
        (λ sync compress serialized t k left.
          command_del-cut lib doc memory sync compress serialized key missing t k fits lost left)

  -- The last round of a connection, when all whole requests were answered.
  abbrev pub LastRound : State lib → Bytes → Type 0
  LastRound s part =
      ((part ≡ [])
        × (b : lib.Buffer) × (rs : List Recv) × (serve_request lib s ≡ (false, taken lib s b rs)))
      ⊎ ((part ≢ []) × Refuses s)

  pub last_round :
      (part : Bytes) (s : State lib)
      → Unfinished part
      → IsHealthy lib s
      → unread lib s ≡ part
      → LastRound s part
  last_round [] s cut h done = let (b, rs, ran) = end_of_stream s done in inl (refl, b, rs, ran)
  last_round (x ∷ part) s (inl none_left) h front = absurd (ground (arith, none_left))
  last_round (x ∷ part) s (inr (r, missing, fits, lost, same)) h front = inr (
    λ none_left. absurd (ground (arith, none_left)),
    cut_round r missing s fits h lost (λ none_left. absurd (ground (arith, sym front ∙ none_left)))
        (rw front same),
  )
