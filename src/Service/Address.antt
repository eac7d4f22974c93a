-- ===== src/Service/Address.antt =====
-- service/setup.go with redis/hook.go and mysql/mysql_logger.go: the addresses that are made of the
-- configuration's instances, and what the hook and the logger read of them.
use Prim.Native.String.{◌∷◌ as ◌∷ₛ◌, ◌++◌ as ◌<>◌}
use lunaship.Base.{String, ◌∷◌}
