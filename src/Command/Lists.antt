-- ===== src/Command/Lists.antt =====
-- What a LIST sends.
use fine_db.Prelude.{
  ◌≡◌, Bool, true, false, none, some, List, [], ◌∷◌, ◌++◌, append-nil, append_assoc, Bytes, ℕ,
  arith,
}
use fine_db.Yerr.{yenoerr}
use fine_db.Exec.{◌>>=◌, label}
use fine_db.Protocol.{resp_ok}
use fine_db.Database.{cursor_loop, database_list}
use fine_db.Socket.{Socket, sendmsg_all}
use fine_db.Server.{Libraries, State}
use fine_db.Server.Sending.{IsHealthy, response, send_ok-healthy}
use fine_db.Command.Listing.{list_element, command_list_loop, command_list}

-- The keys, each behind its length.
abbrev pub elements : List (Bytes × Bytes) → Bytes
elements [] = []
elements ((key, value) ∷ pairs) = list_element key ++ elements pairs

module _ (lib : Libraries) where
  loop_sends :
      (fd : ℕ) (pairs : List (Bytes × Bytes)) (s : Socket)
      → s.sends ≡ []
      → cursor_loop lib.lmdb (command_list_loop (some fd)) s pairs
        ≡ record s { sent = s.sent ++ elements pairs }
  unfolding cursor_loop command_list_loop
  loop_sends fd [] s line = ground (arith, append-nil s.sent)
  loop_sends fd ((key, value) ∷ pairs) s line =
      let s1 : Socket = record s { sent = s.sent ++ list_element key } in
      ground (
        arith,
        sendmsg_all (list_element key) s line,
        loop_sends fd pairs s1 line,
        append_assoc s.sent (list_element key) (elements pairs),
      )

  -- On a connection whose transmissions succeed, outside a transaction, where LMDB begins one, opens the
  -- thread's database and gives a cursor on it: a LIST is answered by RESP_OK, then the keys in the
  -- order of the cursor, each behind its length in two bytes, and then one byte 0; and the transaction
  -- is rolled back.
  pub command_list-elements :
      (sync compress serialized : Bool) (fd : ℕ) (t : lib.Txn) (d : lib.Dbi)
      (pairs : List (Bytes × Bytes)) (s : State lib)
      → s.fd ≡ some fd
      → IsHealthy lib s
      → s.transaction ≡ none
      → (lib.mdb_txn_begin true s.env).0 ≡ some t
      → (lib.mdb_dbi_open t s.dbname false (lib.mdb_txn_begin true s.env).1).0 ≡ some d
      → lib.mdb_cursor t d (lib.mdb_dbi_open t s.dbname false (lib.mdb_txn_begin true s.env).1).1
        ≡ some pairs
      → let opened = lib.mdb_dbi_open t s.dbname false (lib.mdb_txn_begin true s.env).1 in
        let r = command_list lib sync compress serialized s in
        (r.0 ≡ yenoerr)
        × (r.1.sent
            ≡ ((s.sent ++ response lib resp_ok false false none) ++ elements pairs) ++ 0 ∷ [])
        × (r.1.env ≡ lib.mdb_txn_abort t (lib.mdb_dbi_close d opened.1))
  unfolding command_list database_list label ◌>>=◌
  command_list-elements sync compress serialized fd t d pairs s is_fd h outside begun opened
        cursor =
      let told = s.sent ++ response lib resp_ok false false none in
      let s1 : Socket = record s.socket { sent = told } in
      let s2 : Socket = record s1 { sent = told ++ elements pairs } in
      ground (
        arith,
        send_ok-healthy lib s h,
        loop_sends fd pairs s1 h.line,
        sendmsg_all (0 ∷ []) s2 h.line,
      )
