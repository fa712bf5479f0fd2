-- ===== src/Connection/Handlers.antt =====
-- A relation between the states before and after that holds across each part of a handler holds across
-- every handler.
use fine_db.Prelude.{ℕ, zero, suc, Bool, true, false, ◌||◌, Option, none, some, [], ◌∷◌, Bytes}
use fine_db.Exec.Keeps.{Keeps}
use fine_db.Protocol.{protocol, request_command, request_has_sync}
use fine_db.Server.{Libraries, State}
use fine_db.Command.Reply.{Handler}
use fine_db.Command.Ping.{command_ping}
use fine_db.Command.Get.{command_get}
use fine_db.Command.Del.{command_del}
use fine_db.Command.Put.{command_put}
use fine_db.Command.Setdb.{read_dbname, command_setdb}
use fine_db.Command.StartStop.{command_start, command_stop}
use fine_db.Connection.Parts.{
  Parts, Allows, all_parts, error_part, early_part, read_key_part, read_value_part, zipped_part,
  get_reply_part, put_now_part, put_later_part, del_now_part, del_later_part, read_stored_part,
}
use fine_db.Connection.{commands, is_some, execute, on_request}

module _ (lib : Libraries) {R : State lib → State lib → Type 0} (parts : Parts lib R) where
  -- A handler, with its options.
  abbrev pub AllKeep : Handler lib → Type 0
  AllKeep h =
      (sync compress serialized : Bool) → Allows lib R sync → Keeps R (h sync compress serialized)

  ping_keeps : AllKeep (command_ping lib)
  unfolding command_ping
  ping_keeps sync compress serialized allowed = search all_parts

  del_keeps : AllKeep (command_del lib)
  unfolding command_del
  del_keeps true compress serialized allowed =
      search (all_parts, early_part, read_key_part, del_now_part) depth 10
  del_keeps false compress serialized allowed =
      search (all_parts, early_part, read_key_part, del_later_part) depth 10

  get_keeps : AllKeep (command_get lib)
  unfolding command_get
  get_keeps sync compress serialized allowed =
      search (all_parts, read_key_part, read_stored_part lib parts, get_reply_part lib parts) depth
        8

  put_keeps : AllKeep (command_put lib)
  unfolding command_put
  put_keeps true compress serialized allowed =
      search (all_parts, early_part, read_key_part, read_value_part, zipped_part, put_now_part)
        depth 12
  put_keeps false compress serialized allowed =
      search (all_parts, early_part, read_key_part, read_value_part, zipped_part, put_later_part)
        depth 12

  setdb_keeps : AllKeep (command_setdb lib)
  unfolding command_setdb read_dbname
  setdb_keeps sync compress serialized allowed = search all_parts depth 12

  -- START and STOP may change what R says: across them only Q holds, which follows from R.
  module _ (Q : State lib → State lib → Type 0) (weaker : (s t : State lib) → R s t → Q s t)
      (start : (sync compress serialized : Bool)
        → Keeps Q (command_start lib sync compress serialized))
      (stop : (sync compress serialized : Bool)
        → Keeps Q (command_stop lib sync compress serialized)) where
    weaken : {A : Type 0} {m : State lib → A × State lib} → Keeps R m → Keeps Q m
    weaken k = record { at = λ s. weaker s _ (k.at s) }

    -- An entry of the table: NULL, or a handler.
    abbrev EntryKeeps : Bool → Option (Handler lib) → Type 0
    EntryKeeps sync none = Unit {0}
    EntryKeeps sync (some func) =
        (compress serialized : Bool) → Keeps Q (func sync compress serialized)

    commands-EntryKeeps :
        (sync : Bool) → Allows lib R sync → (i : ℕ) → EntryKeeps sync (commands lib i)
    unfolding commands
    commands-EntryKeeps sync allowed zero = λ c z. weaken (ping_keeps sync c z allowed)
    commands-EntryKeeps sync allowed (suc zero) = λ c z. weaken (get_keeps sync c z allowed)
    commands-EntryKeeps sync allowed (suc (suc zero)) = λ c z. weaken (del_keeps sync c z allowed)
    commands-EntryKeeps sync allowed (suc (suc (suc zero))) =
        λ c z. weaken (put_keeps sync c z allowed)
    commands-EntryKeeps sync allowed (suc (suc (suc (suc zero)))) =
        λ c z. weaken (setdb_keeps sync c z allowed)
    commands-EntryKeeps sync allowed (suc (suc (suc (suc (suc zero))))) = start sync
    commands-EntryKeeps sync allowed (suc (suc (suc (suc (suc (suc zero)))))) = stop sync
    commands-EntryKeeps sync allowed (suc (suc (suc (suc (suc (suc (suc i))))))) = tt

    execute_keeps :
        (o : Option (Handler lib)) (request : ℕ) (s : State lib)
        → EntryKeeps (is_some lib s.transaction || request_has_sync request) o
        → Q s (execute lib o request s).1
    unfolding execute
    execute_keeps none request s k = weaker s _ ((error_part lib parts protocol).at s)
    execute_keeps (some func) request s k = (k _ _).at s

    -- What follows the reading of a request's first byte.
    pub on_request_keeps :
        (r : Option Bytes) (s : State lib)
        → ((request : ℕ) → Allows lib R (is_some lib s.transaction || request_has_sync request))
        → Q s (on_request lib r s).1
    unfolding on_request
    on_request_keeps none s allowed = weaker s s (parts.order.refl_at s)
    on_request_keeps (some []) s allowed = weaker s s (parts.order.refl_at s)
    on_request_keeps (some (request ∷ rest)) s allowed =
        execute_keeps (commands lib (request_command request)) request s
          (commands-EntryKeeps _ (allowed request) (request_command request))
