-- ===== src/Dispatcher.antt =====
-- crates/dispatcher/src/lib.rs: the background dispatcher's state and configuration. It knows the
-- queue and the transports as interfaces; the clock and the network are a world that it reads.
pub mod Retry
pub mod Deliver
pub mod Tick
pub mod Run
use oxid_relay.Prelude.{ℕ, Option}
use oxid_relay.Prelude.Text.{Text}
use oxid_relay.Prelude.Assoc.{Assoc}
use oxid_relay.Prelude.Result.{Result}
use oxid_relay.Message.{CoreError, Mail, Time}
use oxid_relay.Queue.{Queue}
use oxid_relay.Dispatcher.Retry.{RetryPolicy, Duration, default_policy, from_secs}

pub record DispatcherConfig : Type 0 where
  pub batch_size : ℕ
  pub concurrency : ℕ
  pub poll_interval : Duration
  pub sending_lease : Duration
  pub retry : RetryPolicy

-- `DispatcherConfig::default()`
abbrev pub default_dispatcher_config : DispatcherConfig
default_dispatcher_config = record {
  batch_size = 64;
  concurrency = 8;
  poll_interval = from_secs 5;
  sending_lease = from_secs 120;
  retry = default_policy;
}

-- The trait `Transport` of crates/core/src/transport.rs; `W` is the world that a delivery changes.
pub record Transport (W : Type 0) : Type 0 where
  pub name : Text
  pub send : Mail → W → Result (Unit {0}) CoreError × W

-- What the dispatcher takes from chrono and the standard library: the clock, the conversion to a
-- `chrono::Duration`, which refuses what is too long, and the debug form of an optional text.
pub record Host (W : Type 0) : Type 0 where
  pub now : W → Time × W
  pub from_std : Duration → Option Duration
  pub debug : Option Text → Text

pub record Inner (S W : Type 0) : Type 0 where
  pub queue : Queue S
  pub transports : Assoc (Transport W)
  pub default_transport : Option Text
  pub config : DispatcherConfig
