-- ===== src/Server/Reading.antt =====
-- `read` and the stream of the client's bytes, in whatever chunks TCP brings them.
use fine_db.Prelude.{
  ◌≢◌, none, ℕ, ◌≤◌, ◌<◌, ◌≡◌, none, some, List, ◌++◌, Bytes, length, take, drop, length-append,
  take-append_left, drop-append_left, take-append_self, drop-append_self, arith,
}
use fine_db.Exec.{◌>>=◌}
use fine_db.Dynabin.{IsDynabin, HasMemory}
use fine_db.Socket.{Recv}
use fine_db.Socket.Read.{read_loop, stream, read_loop-enough, read_loop-short}
use fine_db.Server.{Libraries, State, read}

module _ (lib : Libraries) where
  open lib use {Buffer, bytes}

  -- What the client has sent and no handler has taken yet.
  abbrev pub unread : State lib → Bytes
  unread s = bytes s.buff ++ stream s.recvs

  -- The state after some of it was taken.
  abbrev pub taken : State lib → Buffer → List Recv → State lib
  taken s b rs = record s { socket = record s.socket { recvs = rs }; buff = b }

  -- A read changes the buffer and what is to be received, and nothing else.
  pub read-only :
      (n : ℕ) (s : State lib)
      → (b : lib.Buffer) × (rs : List Recv) × ((read lib n s).1 ≡ taken s b rs)
  unfolding read ◌>>=◌
  read-only n s = ((read lib n s).1.buff, (read lib n s).1.recvs, ground arith)

module _ (lib : Libraries) (doc : IsDynabin lib.dynabin) (memory : HasMemory lib.dynabin) where
  open lib use {Buffer, bytes, ydynabin_forward}

  -- On a connected socket and with memory for the buffer, a read of at most so many bytes as the
  -- client has sent takes exactly these, whatever the sizes of the chunks that recv returns,
  -- leaves the rest, and changes nothing else.
  pub read-take :
      (n : ℕ) (s : State lib)
      → s.fd ≢ none
      → n ≤ length (unread lib s)
      → (b : Buffer) × (rs : List Recv) × (read lib n s
          ≡ (some (take n (unread lib s)), taken lib s b rs))
        × (bytes b ++ stream rs ≡ drop n (unread lib s))
  unfolding read ◌>>=◌
  read-take n s open_fd enough =
      let r = read_loop lib.dynabin n s.recvs s.buff in
      let (done, kept, full) = read_loop-enough lib.dynabin doc memory n s.recvs s.buff enough in
      (
        ydynabin_forward r.2 n,
        r.1,
        ground (arith, kept, take-append_left n (bytes r.2) (stream r.1) full),
        ground (
          arith,
          kept,
          doc.bytes-forward r.2 n full,
          drop-append_left n (bytes r.2) (stream r.1) full,
        ),
      )

  -- In the form that the handlers use: the stream begins with `xs`.
  pub read-front :
      (xs rest : Bytes) (s : State lib)
      → s.fd ≢ none
      → unread lib s ≡ xs ++ rest
      → (b : Buffer) × (rs : List Recv) × (read lib (length xs) s ≡ (some xs, taken lib s b rs))
        × (bytes b ++ stream rs ≡ rest)
  read-front xs rest s open_fd front =
      let (b, rs, ran, left) =
        read-take (length xs) s open_fd (rw front (omega (arith, length-append xs rest))) in
      (
        b,
        rs,
        ground (arith, ran, front, take-append_self xs rest),
        ground (arith, left, front, drop-append_self xs rest),
      )

  -- A read of more than the stream has jumps to the handler's error label.
  pub read-short : (n : ℕ) (s : State lib) → length (unread lib s) < n → (read lib n s).0 ≡ none
  unfolding read ◌>>=◌
  read-short n s short =
      ground (arith, read_loop-short lib.dynabin doc memory n s.recvs s.buff short)
