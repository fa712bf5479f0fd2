-- ===== src/Socket/Read.antt =====
-- The loop that fills a buffer from a socket, which connection_read_data (connection_thread.c) and
-- _read_data (libfinedb.c) share. The server's own calls of `setsockopt` decide nothing.
use fine_db.Prelude.{
  ◌+◌, ℕ, ◌≤◌, ◌<◌, ◌≡◌, ◌≢◌, Option, none, some, List, [], ◌∷◌, ◌++◌, append-nil, append_assoc,
  Bytes, length, length-append, leb, arith, if◌then◌else◌, Option-cases, inl, inr, ap,
}
use fine_db.Yerr.{Yerr, yenoerr, yeaccess, yeconnreset, yenomem}
use fine_db.Dynabin.{Dynabin, IsDynabin, HasMemory}
use fine_db.Socket.{Recv, received, recv_error}

-- The bytes that arrive before the peer closes or a call fails, however they are cut.
unfoldable pub stream : List Recv → Bytes
stream [] = []
stream (recv_error ∷ rest) = []
stream (received [] ∷ rest) = []
stream (received (x ∷ xs) ∷ rest) = (x ∷ xs) ++ stream rest

module _ (dyn : Dynabin) where
  open dyn use {Buffer, bytes, ydynabin_expand}

  -- The results left, the buffer, and the function's own result.
  abbrev pub Filled : Type 0
  Filled = Yerr × List Recv × Buffer

  on_expand : (Buffer → Filled) → List Recv → Buffer → Option Buffer → Filled
  on_expand loop rest b none = (yenomem, rest, b)
  on_expand loop rest b (some c) = loop c

  -- One round, with what follows it: the result of `recv` decides.
  unfoldable pub read_loop : ℕ → List Recv → Buffer → Filled
  unfolding on_expand
  read_loop size [] b = if leb size (length (bytes b)) then (yenoerr, [], b) else (yeaccess, [], b)
  read_loop size (recv_error ∷ rest) b =
      if leb size (length (bytes b)) then (yenoerr, recv_error ∷ rest, b) else (yeaccess, rest, b)
  read_loop size (received [] ∷ rest) b =
      if leb size (length (bytes b))
      then (yenoerr, received [] ∷ rest, b)
      else (yeconnreset, rest, b)
  read_loop size (received (x ∷ xs) ∷ rest) b =
      let more = on_expand (read_loop size rest) rest b (ydynabin_expand b (x ∷ xs)) in
      if leb size (length (bytes b)) then (yenoerr, received (x ∷ xs) ∷ rest, b) else more

module _ (dyn : Dynabin) (doc : IsDynabin dyn) (memory : HasMemory dyn) where
  open dyn use {Buffer, bytes, ydynabin_expand}

  -- All that is still to be read: the buffer, then the stream.
  abbrev pub pending : Buffer → List Recv → Bytes
  pending b rs = bytes b ++ stream rs

  pending_moved :
      (x : ℕ) (xs : Bytes) (rest : List Recv) (b c : Buffer)
      → ydynabin_expand b (x ∷ xs) ≡ some c
      → pending c rest ≡ pending b (received (x ∷ xs) ∷ rest)
  unfolding stream
  pending_moved x xs rest b c grown =
      rw (doc.bytes-expand b c (x ∷ xs) grown) (append_assoc (bytes b) (x ∷ xs) (stream rest))

  -- If the stream has enough bytes the loop succeeds with so many in the buffer, and loses none.
  pub read_loop-enough :
      (size : ℕ) (rs : List Recv) (b : Buffer)
      → size ≤ length (pending b rs)
      → let r = read_loop dyn size rs b in
        (r.0 ≡ yenoerr) × (pending r.2 r.1 ≡ pending b rs) × (size ≤ length (bytes r.2))
  unfolding read_loop stream
  read_loop-enough size [] b h = ground (arith, append-nil (bytes b))
  read_loop-enough size (recv_error ∷ rest) b h = ground (arith, append-nil (bytes b))
  read_loop-enough size (received [] ∷ rest) b h = ground (arith, append-nil (bytes b))
  read_loop-enough size (received (x ∷ xs) ∷ rest) b h =
      let (c, grown) = memory b (x ∷ xs) in
      let moved = pending_moved x xs rest b c grown in
      let next = read_loop-enough size rest c (rw moved h) in ground (arith, grown, moved, next)

  -- If it has not, the loop fails.
  pub read_loop-short :
      (size : ℕ) (rs : List Recv) (b : Buffer)
      → length (pending b rs) < size
      → (read_loop dyn size rs b).0 ≢ yenoerr
  unfolding read_loop stream
  read_loop-short size [] b h = ground (arith, append-nil (bytes b))
  read_loop-short size (recv_error ∷ rest) b h = ground (arith, append-nil (bytes b))
  read_loop-short size (received [] ∷ rest) b h = ground (arith, append-nil (bytes b))
  read_loop-short size (received (x ∷ xs) ∷ rest) b h =
      let (c, grown) = memory b (x ∷ xs) in
      let moved = pending_moved x xs rest b c grown in
      let next = read_loop-short size rest c (rw moved h) in
      ground (arith, grown, next, length-append (bytes b) (stream (received (x ∷ xs) ∷ rest)))

-- All the bytes of the chunks to come.
unfoldable pub volume : List Recv → ℕ
volume [] = 0
volume (recv_error ∷ rest) = volume rest
volume (received xs ∷ rest) = length xs + volume rest

module _ (dyn : Dynabin) (doc : IsDynabin dyn) where
  open dyn use {Buffer, bytes, ydynabin_expand}

  -- The loop makes up no byte, and if it succeeds it has filled the buffer.
  pub read_loop-volume :
      (size : ℕ) (rs : List Recv) (b : Buffer)
      → let r = read_loop dyn size rs b in
        (length (bytes r.2) + volume r.1 ≤ length (bytes b) + volume rs)
        × (r.0 ≡ yenoerr → size ≤ length (bytes r.2))
  unfolding read_loop volume
  read_loop-volume size [] b = ground arith
  read_loop-volume size (recv_error ∷ rest) b = ground arith
  read_loop-volume size (received [] ∷ rest) b = ground arith
  read_loop-volume size (received (x ∷ xs) ∷ rest) b =
      elim (Option-cases (ydynabin_expand b (x ∷ xs))) [
        | inl full ↦ ground (arith, full)
        | inr (c, grown) ↦ ground (
          arith,
          grown,
          ap length (doc.bytes-expand b c (x ∷ xs) grown),
          length-append (bytes b) (x ∷ xs),
          read_loop-volume size rest c,
        )
      ]
