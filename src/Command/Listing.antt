-- ===== src/Command/Listing.antt =====
-- src/server/command_list.c, which the table of handlers does not name.
use fine_db.Prelude.{
  ℕ, Bool, true, false, Option, none, some, [], ◌∷◌, ◌++◌, Bytes, length, ltb, if◌then◌else◌,
}
use fine_db.Yerr.{Yerr, yenoerr, yeio}
use fine_db.Exec.{pure, jump, call, label, ◌>>=◌, ◌>>◌}
use fine_db.Wire.{htons}
use fine_db.Database.{database_list}
use fine_db.Socket.{Socket, sendmsg}
use fine_db.Server.{Libraries, M, State, connection_send_ok, server_error}
use fine_db.Command.Reply.{Handler}

-- What is sent for one key.
abbrev pub list_element : Bytes → Bytes
list_element key = htons (length key) ++ key

element_sent : ℕ → Option ℕ → Yerr
element_sent expected none = yeio
element_sent expected (some rc) = if ltb rc expected then yeio else yenoerr

-- `_command_list_loop`, the callback of database_list: its data is the thread, of which it uses the
-- socket.
unfoldable pub command_list_loop : Option ℕ → Socket → Bytes → Bytes → Yerr × Socket
unfolding element_sent
command_list_loop none s key value = (yeio, s)
command_list_loop (some fd) s key value =
    let r = sendmsg (list_element key) s in (element_sent (length (list_element key)) r.0, r.1)

module _ (lib : Libraries) where
  unless_error : Yerr → M lib (Unit {0})
  unless_error yenoerr = pure tt
  unless_error e = jump

  list_elements : State lib → Yerr × State lib
  list_elements s =
      let r =
        database_list lib.lmdb s.transaction s.dbname (command_list_loop s.fd) s.socket s.env in
      (r.0.0, record s { socket = r.0.1; env = r.1 })

  -- `write` of the last byte, which must return 1.
  byte_sent : Option ℕ → Bool
  byte_sent none = false
  byte_sent (some n) = if ltb n 1 then false else if ltb 1 n then false else true

  last_byte : State lib → Bool × State lib
  unfolding byte_sent
  last_byte s = elim s.fd [
    | none ↦ (false, s)
    | some fd ↦ let r = sendmsg (0 ∷ []) s.socket in (byte_sent r.0, record s { socket = r.1 })
  ]

  unless_sent : Bool → M lib (Unit {0})
  unless_sent true = pure tt
  unless_sent false = jump

  list_body : M lib Yerr
  unfolding unless_error list_elements last_byte unless_sent
  list_body = do
    result ← call (connection_send_ok lib)
    unless_error result
    code ← call list_elements
    unless_error code
    ok ← call last_byte
    unless_sent ok
    pure result

  unfoldable pub command_list : Handler lib
  unfolding list_body
  command_list sync compress serialized = label list_body (server_error lib)
