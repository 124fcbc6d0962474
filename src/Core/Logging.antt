-- ===== src/Core/Logging.antt =====
-- backend/src/app/core/logging.py: what structlog is configured with, and the values bound to the
-- log lines of a request.
use honest_agent.Prelude.{ℕ, Bool, true, false, List, [], ◌∷◌, ◌++◌}
use honest_agent.Py.Str.{Str, codes}
use honest_agent.Py.Dict.{Dict, assign}

-- The processors of the library that the program names, and its renderers.
pub data Processor : Type 0 where
  merge_contextvars add_log_level stack_info_renderer format_exc_info json_renderer
        console_renderer :
      Processor
  time_stamper : (fmt : Str) (utc : Bool) → Processor

pub record LoggingConfig : Type 0 where
  pub processors : List Processor
  pub min_level : ℕ
  pub cache_logger_on_first_use : Bool

abbrev pub info_level : ℕ
info_level = 20

unfoldable pub renderer : (json_logs : Bool) → Processor
renderer true = json_renderer
renderer false = console_renderer

unfoldable pub logging_config : (json_logs : Bool) → LoggingConfig
unfolding renderer
logging_config json_logs =
    let shared : List Processor =
      merge_contextvars
      ∷ add_log_level
      ∷ time_stamper (codes "iso") true
      ∷ stack_info_renderer
      ∷ format_exc_info
      ∷ [] in
    record {
      processors = shared ++ (renderer json_logs ∷ []);
      min_level = info_level;
      cache_logger_on_first_use = true;
    }

-- The context variables of the log lines: what stood in them is cleared first.
unfoldable pub bind_request_context : (tenant_id request_id trace_id : Str) → Dict Str → Dict Str
bind_request_context tenant_id request_id trace_id context =
    let cleared : Dict Str = [] in
    assign (codes "trace_id") trace_id
      (assign (codes "request_id") request_id (assign (codes "tenant_id") tenant_id cleared))
