-- ===== src/Core/Context.antt =====
-- What a context carries: internal/core/observability.go. A value that is not set reads as "".
use dinapay_connector_binanc.Shared.{Text, []}

pub record Context : Type 0 where
  pub request_id : Text
  pub traceparent : Text

-- context.Background()
abbrev pub background : Context
background = record { request_id = []; traceparent = [] }

unfoldable pub with_observability : Context → Text → Text → Context
with_observability ctx request_id traceparent = record ctx {
  request_id = request_id;
  traceparent = traceparent;
}
