-- ===== src/Client/Queued.antt =====
-- What the server does with the asynchronous requests of the client library.
use fine_db.Prelude.{
  ◌^◌, ◌<◌, ◌≡◌, refl, true, false, none, List, [], ◌∷◌, ◌++◌, Bytes, length, arith, append_assoc,
  ◌∙◌,
}
use fine_db.Wire.{htons}
use fine_db.Dynabin.{IsDynabin, HasMemory}
use fine_db.Protocol.{
  resp_ok, command_code, request_command, request_has_sync, request_has_compressed,
  request_has_serialized, request_add_compressed,
}
use fine_db.Socket.{Recv}
use fine_db.Socket.Read.{stream}
use fine_db.Server.{Libraries, State, write_put, write_del}
use fine_db.Server.Reading.{unread, taken, read-front}
use fine_db.Server.Sending.{queued, IsHealthy, replied, response, taken-IsHealthy}
use fine_db.Command.Puts.{command_put-async}
use fine_db.Command.Deletes.{command_del-async}
use fine_db.Connection.{is_some, serve_request, on_request, execute, commands}
use fine_db.Client.{put_request, del_request}
use fine_db.Client.Serving.{put_fields}

pub put_async-fields :
    (key z rest : Bytes) → put_request false key z ++ rest ≡ 67 ∷ put_fields key z rest
unfolding command_code request_add_compressed
put_async-fields key z rest = simp append_assoc

pub del_async-fields :
    (key rest : Bytes) → del_request false key ++ rest ≡ 2 ∷ (htons (length key) ++ (key ++ rest))
unfolding command_code
del_async-fields key rest = simp append_assoc

module _ (lib : Libraries) (doc : IsDynabin lib.dynabin) (memory : HasMemory lib.dynabin) where
  pub serve_request-put_async :
      (key z rest : Bytes) (s : State lib)
      → IsHealthy lib s
      → s.transaction ≡ none
      → s.pushes ≡ []
      → length key < 2 ^ 16
      → length z < 2 ^ 32
      → unread lib s ≡ put_request false key z ++ rest
      → (b : lib.Buffer) × (rs : List Recv) × (serve_request lib s ≡ (
        true,
        queued lib
            (replied lib (taken lib s b rs) (response lib resp_ok false false none))
            (write_put s.dbname key z false),
      ))
        × (lib.bytes b ++ stream rs ≡ rest)
  unfolding serve_request on_request execute commands is_some request_command request_has_sync
      request_has_compressed request_has_serialized
  serve_request-put_async key z rest s h outside pushes short_key short_value front =
      let (b1, rs1, ran1, left1) =
        read-front lib doc memory (67 ∷ []) (put_fields key z rest) s h.connected
          (front ∙ put_async-fields key z rest) in
      let s1 = taken lib s b1 rs1 in
      let (b, rs, ran, left) =
        command_put-async lib doc memory true false key z z rest s1 (taken-IsHealthy lib b1 rs1 h)
          pushes short_key short_value refl left1 in
      (b, rs, ground (arith, ran1, ran, outside), left)

  pub serve_request-del_async :
      (key rest : Bytes) (s : State lib)
      → IsHealthy lib s
      → s.transaction ≡ none
      → s.pushes ≡ []
      → length key < 2 ^ 16
      → unread lib s ≡ del_request false key ++ rest
      → (b : lib.Buffer) × (rs : List Recv) × (serve_request lib s ≡ (
        true,
        queued lib
            (replied lib (taken lib s b rs) (response lib resp_ok false false none))
            (write_del s.dbname key),
      ))
        × (lib.bytes b ++ stream rs ≡ rest)
  unfolding serve_request on_request execute commands is_some request_command request_has_sync
      request_has_compressed request_has_serialized
  serve_request-del_async key rest s h outside pushes short front =
      let (b1, rs1, ran1, left1) =
        read-front lib doc memory (2 ∷ []) (htons (length key) ++ (key ++ rest)) s h.connected
          (front ∙ del_async-fields key rest) in
      let s1 = taken lib s b1 rs1 in
      let (b, rs, ran, left) =
        command_del-async lib doc memory false false key rest s1 (taken-IsHealthy lib b1 rs1 h)
          pushes short left1 in
      (b, rs, ground (arith, ran1, ran, outside), left)
