-- ===== src/Connection/Parts.antt =====
-- What the handlers are made of, and what a relation must hold across to hold across their steps.
use fine_db.Prelude.{ℕ, zero, suc, Bool, true, false, Option, none, some, [], ◌∷◌, Bytes}
use fine_db.Yerr.{Yerr, yenoerr, yenodata}
use fine_db.Exec.{◌>>=◌}
use fine_db.Exec.Keeps.{IsPreorder, Keeps, keeps_rules}
use fine_db.Protocol.{Response, server}
use fine_db.Lmdb.{Name}
use fine_db.Database.{database_put, database_get, database_del}
use fine_db.Server.{
  Libraries, State, WriterMsg, connection_send_response, connection_send_ok, connection_send_error,
  read, ymalloc, strdup_dbname, nn_send, on_env, server_error,
}
use fine_db.Server.Sending.{stored}
use fine_db.Command.Reply.{respond_early, respond, read_key}
use fine_db.Command.Get.{get_reply, to_send, unzipped}
use fine_db.Command.Del.{del_now, del_later}
use fine_db.Command.Put.{read_block, read_value, or_jump, zipped, put_later, put_now}
use fine_db.Command.Setdb.{set_dbname}

module _ (lib : Libraries) where
  -- What the handlers are made of, except the sending of messages, START and STOP.
  pub record Parts (R : State lib → State lib → Type 0) : Type 0 where
    pub order : IsPreorder R
    pub response_part :
        (code : Response) (serialized compressed : Bool) (x : Option Bytes)
        → Keeps R (connection_send_response lib code serialized compressed x)
    pub ymalloc_part : Keeps R (ymalloc lib)
    pub strdup_part : Keeps R (strdup_dbname lib)
    pub read_part : (n : ℕ) → Keeps R (read lib n)
    pub dbname_part : (n : Name) → Keeps R (set_dbname lib n)
    pub put_part :
        (create_only : Bool) (key value : Bytes) (s : State lib)
        → R s (
            stored lib s
              (database_put lib.lmdb s.transaction create_only s.dbname key value s.env).1)
    pub del_part :
        (key : Bytes) (s : State lib)
        → R s (stored lib s (database_del lib.lmdb s.transaction s.dbname key s.env).1)
    pub get_part :
        (key : Bytes) (s : State lib)
        → R s (stored lib s (database_get lib.lmdb s.unset s.transaction s.dbname key s.env).1)

  -- A message may be sent by a request that is not synchronous.
  abbrev pub Allows : (State lib → State lib → Type 0) → Bool → Type 0
  Allows R true = Unit {0}
  Allows R false = (msg : WriterMsg) → Keeps R (nn_send lib msg)

  module _ {R : State lib → State lib → Type 0} (parts : Parts R) where
    pub order_part : IsPreorder R
    order_part = parts.order

    pub sends :
        (code : Response) (serialized compressed : Bool) (x : Option Bytes)
        → Keeps R (connection_send_response lib code serialized compressed x)
    sends = parts.response_part

    pub reads : (n : ℕ) → Keeps R (read lib n)
    reads = parts.read_part

    pub names : (n : Name) → Keeps R (set_dbname lib n)
    names = parts.dbname_part

    pub ok_part : Keeps R (connection_send_ok lib)
    unfolding connection_send_ok
    ok_part = sends _ _ _ _

    pub error_part : (code : Response) → Keeps R (connection_send_error lib code)
    unfolding connection_send_error
    error_part code = sends _ _ _ _

    pub server_error_part : Keeps R (server_error lib)
    unfolding server_error
    server_error_part = record { at = (error_part server).at }

    pub ruleset all_parts =
        (keeps_rules, order_part, ok_part, error_part, server_error_part, sends, reads, names)

    pub early_part : (sync : Bool) → Keeps R (respond_early lib sync)
    unfolding respond_early
    early_part sync = search all_parts

    respond_part : (code : Yerr) → Keeps R (respond lib code)
    unfolding respond
    respond_part code = search all_parts

    pub read_key_part : Keeps R (read_key lib)
    unfolding read_key
    read_key_part = search all_parts

    read_block_part : (n : ℕ) → Keeps R (read_block lib n)
    unfolding read_block
    read_block_part zero = search all_parts
    read_block_part (suc n) = search all_parts

    pub read_value_part : Keeps R (read_value lib)
    unfolding read_value
    read_value_part = search (all_parts, read_block_part)

    or_jump_part : {A : Type 0} (o : Option A) → Keeps R (or_jump lib o)
    unfolding or_jump
    or_jump_part none = search all_parts
    or_jump_part (some a) = search all_parts

    pub zipped_part : (compress : Bool) (value : Bytes) → Keeps R (zipped lib compress value)
    unfolding zipped
    zipped_part compress value = search (all_parts, or_jump_part)

    to_send_part : (compress : Bool) (o : Option Bytes) → Keeps R (to_send lib compress o)
    unfolding to_send
    to_send_part compress none = search all_parts
    to_send_part compress (some []) = search all_parts
    to_send_part true (some (x ∷ xs)) = search all_parts
    to_send_part false (some (x ∷ xs)) = go (lib.snappy_uncompress (x ∷ xs))
      where
        go : (o : Option Bytes) → Keeps R (unzipped lib o)
        go none = search all_parts
        go (some plain) = search all_parts

    pub get_reply_part :
        (compress serialized : Bool) (r : Yerr × Option Bytes)
        → Keeps R (get_reply lib compress serialized r)
    unfolding get_reply
    get_reply_part compress serialized (yenoerr, o) = search (all_parts, to_send_part)
    get_reply_part compress serialized (yenodata, o) = search all_parts
    get_reply_part compress serialized (e, o) = search all_parts

    -- A synchronous PUT, one that only updates being another: nothing calls it.
    pub put_now_part :
        (create_only : Bool) (key value : Bytes) → Keeps R (put_now lib create_only false key value)
    unfolding put_now ◌>>=◌ respond on_env
    put_now_part create_only key value = record {
      at = λ s.
          parts.order.trans_at s _ _ (parts.put_part create_only key value s)
            ((respond_part _).at _);
    }

    pub put_later_part :
        ((msg : WriterMsg) → Keeps R (nn_send lib msg))
        → (create_only : Bool) (key value : Bytes) → Keeps R (put_later lib create_only key value)
    unfolding put_later
    put_later_part posts create_only key value = search all_parts depth 8

    pub del_now_part : (key : Bytes) → Keeps R (del_now lib key)
    unfolding del_now ◌>>=◌ respond on_env
    del_now_part key = record {
      at = λ s. parts.order.trans_at s _ _ (parts.del_part key s) ((respond_part _).at _);
    }

    pub del_later_part :
        ((msg : WriterMsg) → Keeps R (nn_send lib msg))
        → (key : Bytes) → Keeps R (del_later lib key)
    unfolding del_later
    del_later_part posts key = search all_parts depth 8

    pub read_stored_part :
        (key : Bytes)
        → Keeps R (on_env lib (λ s. database_get lib.lmdb s.unset s.transaction s.dbname key))
    unfolding on_env ◌>>=◌
    read_stored_part key = record { at = parts.get_part key }
