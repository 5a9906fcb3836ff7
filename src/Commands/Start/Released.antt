-- ===== src/Commands/Start/Released.antt =====
-- What the daemon still holds when it ends.
use rune_admin.Prelude.{true, Option, some, List, []}
use rune_admin.Server.Config as Config
use rune_admin.Server.Config.{Config}
use rune_admin.Server.Serve.{Resource}
use rune_admin.Server.Serve.Held.{left}
use rune_admin.Commands.Start.{DaemonError, serve_failed}

-- What is left if the daemon ends because gRPC failed.
abbrev pub left_by : Option DaemonError → List Resource
left_by (some (serve_failed e)) = left true (some e)
left_by _ = []
