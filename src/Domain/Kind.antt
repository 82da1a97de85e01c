-- ===== src/Domain/Kind.antt =====
-- ExecutionKind and its wire values.
use generic_ml_cache.Prelude.{String}

pub data ExecutionKind : Type 0 where
  local_managed local_passthrough api api_passthrough : ExecutionKind

-- `.value`
unfoldable pub kind_value : ExecutionKind → String
kind_value ExecutionKind.local_managed = "local_managed"
kind_value ExecutionKind.local_passthrough = "local_passthrough"
kind_value ExecutionKind.api = "api"
kind_value ExecutionKind.api_passthrough = "api_passthrough"
