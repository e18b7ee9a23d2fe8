-- ===== src/Logging.antt =====
-- crates/logging/src/lib.rs: the set-up of the log. The subscriber and its filters are those of
-- `tracing_subscriber`, a library.
use oxid_relay.Prelude.{Bool, ◌&&◌, not}
use oxid_relay.Prelude.Text.{Text, codes}
use oxid_relay.Prelude.Result.{Result, ok, err}

-- What the set-up takes from `tracing_subscriber` and the standard library. `try_init` refuses a
-- second subscriber.
pub record Tracing (Filter : Type 0) : Type 0 where
  pub try_from_default_env : Result Filter Text
  pub try_new : Text → Result Filter Text
  pub new : Text → Filter
  pub is_terminal : Bool
  pub try_init : Bool → Filter → Result (Unit {0}) Text

module _ {Filter : Type 0} (tracing : Tracing Filter) where
  -- `cfg!(windows)` is an argument.
  unfoldable pub use_ansi : Bool → Bool
  use_ansi windows = tracing.is_terminal && not windows

  unfoldable pub build_filter : Text → Filter
  build_filter level = elim tracing.try_from_default_env [
    | ok filter ↦ filter
    | err _ ↦ elim (tracing.try_new level) [
      | ok filter ↦ filter
      | err _ ↦ tracing.new (codes "info")
    ]
  ]

  unfoldable pub init : Bool → Text → Result (Unit {0}) Text
  unfolding use_ansi build_filter
  init windows level = tracing.try_init (use_ansi windows) (build_filter level)
