-- ===== src/Startup/Relay/Starts.antt =====
-- When the daemon of crates/oxid-relay/src/main.rs starts, with what, and when it does not.
use oxid_relay.Prelude.{◌≡◌, ◌≢◌, ◌⊎◌, inl, inr, refl, Option, none, some, Option-cases}
use oxid_relay.Prelude.Text.{Text}
use oxid_relay.Prelude.Assoc.{get}
use oxid_relay.Prelude.Result.{ok, err, Result-cases}
use oxid_relay.Message.{CoreError}
use oxid_relay.Config.{Config, ConfigError}
use oxid_relay.Config.Load.{load}
use oxid_relay.Logging.{init}
use oxid_relay.Queue.Instance.{sqlite_queue}
use oxid_relay.Queue.Sqlite.{Moment}
use oxid_relay.Queue.Sqlite.Open.{Database, rows_of, connect, connect-cases}
use oxid_relay.Smtp.{new_smtp_transport}
use oxid_relay.Startup.{sqlite_url, lock_path}
use oxid_relay.Plugin.Loader.{is_windows}
use oxid_relay.Startup.Plugins.{build_plugin_transports}
use oxid_relay.Startup.Ready.{IsReady, dispatcher-IsReady}
use oxid_relay.Startup.Relay.{
  StartError, config_error, logging_error, lock_open, lock_error, already_running, queue_error,
  TryLock, acquired, would_block, failed, Files, acquire_instance_lock, System, Started, started,
  run_relay,
}

TryLock-cases : (t : TryLock) → (t ≡ acquired) ⊎ (t ≡ would_block) ⊎ ((e : Text) × (t ≡ failed e))
TryLock-cases acquired = inl refl
TryLock-cases would_block = inr (inl refl)
TryLock-cases (failed e) = inr (inr (e, refl))

module _ {F : Type 0} (files : Files F) (database : Text) where
  -- The lock file of the database is held; a database in memory has none.
  abbrev pub IsLocked : Option F → Type 0
  IsLocked lock =
      ((lock_path database ≡ none) × (lock ≡ none))
      ⊎ ((path : Text) × (file : F) × (lock_path database ≡ some path)
          × (files.open_lock path ≡ ok file)
          × (files.try_lock file ≡ acquired)
          × (lock ≡ some file))

  -- Why the lock is not held.
  pub data Unlocked : StartError → Type 0 where
    unopened :
        (path e : Text)
        → lock_path database ≡ some path
        → files.open_lock path ≡ err e
        → Unlocked (lock_open path e)
    taken :
        (path : Text) (file : F)
        → lock_path database ≡ some path
        → files.open_lock path ≡ ok file
        → files.try_lock file ≡ would_block
        → Unlocked (already_running path)
    refused :
        (path e : Text) (file : F)
        → lock_path database ≡ some path
        → files.open_lock path ≡ ok file
        → files.try_lock file ≡ failed e
        → Unlocked (lock_error path e)

  acquire_instance_lock-cases :
      ((lock : Option F) × (acquire_instance_lock files database ≡ ok lock) × IsLocked lock)
      ⊎ ((x : StartError) × (acquire_instance_lock files database ≡ err x) × Unlocked x)
  unfolding acquire_instance_lock
  acquire_instance_lock-cases = elim (Option-cases (lock_path database)) [
    | inl p ↦ inl (none, rw (p, acquire_instance_lock) refl, inl (p, refl))
    | inr (path, p) ↦ elim (Result-cases (files.open_lock path)) [
      | inr (e, o) ↦
          inr (lock_open path e, rw (p, o, acquire_instance_lock) refl, unopened path e p o)
      | inl (file, o) ↦ elim (TryLock-cases (files.try_lock file)) [
        | inl t ↦
            inl
              (some file, rw (p, o, t, acquire_instance_lock) refl, inr (path, file, p, o, t, refl))
        | inr (inl t) ↦
            inr (
              already_running path,
              rw (p, o, t, acquire_instance_lock) refl,
              taken path file p o t,
            )
        | inr (inr (e, t)) ↦
            inr (
              lock_error path e,
              rw (p, o, t, acquire_instance_lock) refl,
              refused path e file p o t,
            )
      ]
    ]
  ]

module _ {Builder Mailbox Letter V A E J Options F Filter W : Type 0}
    (sys : System Builder Mailbox Letter V A E J Options F Filter W) where
  -- A daemon that runs on a configuration that was loaded.
  pub record IsRunning (path : Text) (d : Started F W) : Type 0 where
    pub config : Config
    pub loaded : load sys.fs sys.toml path ≡ ok config
    pub built :
        (lock : Option F) × (d ≡ started sys config lock)
        × IsLocked sys.files config.queue.database lock
    pub ready : IsReady d.inner.config
    pub default :
        (config.mail.default_transport ≢ none)
        ⊎ (d.inner.default_transport ≡ none)
        ⊎ ((name : Text) × (d.inner.default_transport ≡ some name)
            × (get d.inner.transports name ≢ none))

  -- Why the daemon does not start.
  pub data Stops (path : Text) (e : Moment) (db : Database) : StartError → Type 0 where
    unloaded :
        (x : ConfigError)
        → load sys.fs sys.toml path ≡ err x
        → Stops path e db (config_error path x)
    unlogged :
        (config : Config) (x : Text)
        → load sys.fs sys.toml path ≡ ok config
        → init sys.tracing (is_windows sys.disk.platform) config.logging.level ≡ err x
        → Stops path e db (logging_error x)
    unlocked :
        (config : Config) (x : StartError)
        → load sys.fs sys.toml path ≡ ok config
        → Unlocked sys.files config.queue.database x
        → Stops path e db x
    unconnected :
        (config : Config) (x : CoreError)
        → load sys.fs sys.toml path ≡ ok config
        → (connect sys.sqlx e (sqlite_url config.queue.database) db).0 ≡ err x
        → Stops path e db (queue_error (sqlite_url config.queue.database) x)

  started-IsRunning :
      (path : Text) (config : Config) (lock : Option F)
      → load sys.fs sys.toml path ≡ ok config
      → IsLocked sys.files config.queue.database lock
      → IsRunning path (started sys config lock)
  unfolding started
  started-IsRunning path config lock loaded held =
      let (ready, default) =
        dispatcher-IsReady (new_smtp_transport sys.connector sys.env) (sqlite_queue sys.codec)
          (build_plugin_transports sys.disk sys.parsers sys.rhai sys.runtime sys.env config sys.http
            sys.json sys.debug_assertions)
          sys.fs sys.toml path config loaded in
      record {
        config = config;
        loaded = loaded;
        built = (lock, refl, held);
        ready = ready;
        default = default;
      }

  -- The daemon starts, on a queue with the rows that were stored: then its configuration was loaded,
  -- the lock of the database is held, unless the database is in memory, its dispatcher has positive
  -- limits, and where the configuration names no default transport, a default that the daemon picks
  -- is one that it has. Or it stops with an error that says which step failed, be it the
  -- configuration, the log, the lock, as another instance holds it, say, or the queue, and then
  -- the database is as it was.
  pub run_relay-Starts :
      (path : Text) (e : Moment) (db : Database)
      → ((d : Started F W) × (run_relay sys path e db ≡ (ok d, some (rows_of db)))
          × IsRunning path d)
        ⊎ ((x : StartError) × (run_relay sys path e db ≡ (err x, db)) × Stops path e db x)
  unfolding run_relay
  run_relay-Starts path e db = elim (Result-cases (load sys.fs sys.toml path)) [
    | inr (x, l) ↦ inr (config_error path x, rw (l, run_relay) refl, unloaded x l)
    | inl (config, l) ↦
        elim (Result-cases (init sys.tracing (is_windows sys.disk.platform) config.logging.level)) [
          | inr (x, i) ↦ inr (logging_error x, rw (l, i, run_relay) refl, unlogged config x l i)
          | inl (u, i) ↦ elim (acquire_instance_lock-cases sys.files config.queue.database) [
            | inr (x, a, why) ↦ inr (x, rw (l, i, a, run_relay) refl, unlocked config x l why)
            | inl (lock, a, held) ↦
                elim (connect-cases sys.sqlx e (sqlite_url config.queue.database) db) [
                  | inl c ↦ inl (
                    started sys config lock,
                    rw (l, i, a, c, run_relay) refl,
                    started-IsRunning path config lock l held,
                  )
                  | inr (x, c) ↦ inr (
                    queue_error (sqlite_url config.queue.database) x,
                    rw (l, i, a, c, run_relay) refl,
                    unconnected config x l (rw c refl),
                  )
                ]
          ]
        ]
  ]
