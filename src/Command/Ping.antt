-- ===== src/Command/Ping.antt =====
-- src/server/command_ping.c
use fine_db.Server.{Libraries, connection_send_ok}
use fine_db.Command.Reply.{Handler}

module _ (lib : Libraries) where
  unfoldable pub command_ping : Handler lib
  command_ping sync compress serialized = connection_send_ok lib
