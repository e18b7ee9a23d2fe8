-- ===== src/Queue/Sqlite/Open.antt =====
-- `SqliteQueue::connect` and `migrate` of crates/queue-sqlite/src/lib.rs.
use oxid_relay.Prelude.{◌≡◌, ◌⊎◌, inl, inr, refl, Option, none, some, List, [], Option-cases}
use oxid_relay.Prelude.Text.{Text}
use oxid_relay.Prelude.Result.{Result, ok, err, Result-cases}
use oxid_relay.Message.{CoreError}
use oxid_relay.Queue.Row.{Row}
use oxid_relay.Queue.Sqlite.{Moment, execute}

-- The database that a URL names: it has the table `mails`, with these rows, or has it not.
abbrev pub Database : Type 0
Database = Option (List Row)

-- The rows that are stored.
abbrev pub rows_of : Database → List Row
rows_of none = []
rows_of (some rows) = rows

-- What `connect` takes from `sqlx`: the options of a URL, and the pool that is opened with them.
pub record Sqlx (Options : Type 0) : Type 0 where
  pub from_str : Text → Result Options Text
  pub connect_with : Options → Result (Unit {0}) Text

-- `CREATE TABLE IF NOT EXISTS mails (...)`
unfoldable pub migrate : Moment → Database → Result (Unit {0}) CoreError × Database
unfolding execute
migrate e db = execute e (ok tt, some (rows_of db)) db

unfoldable pub connect :
    {Options : Type 0}
    → Sqlx Options
    → Moment
    → Text
    → Database
    → Result (Unit {0}) CoreError × Database
unfolding migrate
connect sqlx e url db = elim (sqlx.from_str url) [
  | err x ↦ (err (CoreError.queue x), db)
  | ok options ↦ elim (sqlx.connect_with options) [
    | err x ↦ (err (CoreError.queue x), db)
    | ok _ ↦ migrate e db
  ]
]

-- A queue that opens has its table, with the rows that were stored; one that does not open leaves
-- the database as it was.
pub connect-cases :
    {Options : Type 0} (sqlx : Sqlx Options) (e : Moment) (url : Text) (db : Database)
    → (connect sqlx e url db ≡ (ok tt, some (rows_of db)))
      ⊎ ((x : CoreError) × (connect sqlx e url db ≡ (err x, db)))
unfolding connect migrate execute
connect-cases sqlx e url db = elim (Result-cases (sqlx.from_str url)) [
  | inr (x, a) ↦ inr (CoreError.queue x, rw (a, connect) refl)
  | inl (options, a) ↦ elim (Result-cases (sqlx.connect_with options)) [
    | inr (x, b) ↦ inr (CoreError.queue x, rw (a, b, connect) refl)
    | inl (u, b) ↦ elim (Option-cases e.fault) [
      | inl f ↦ inl (rw (a, b, f, connect, migrate, execute) refl)
      | inr (text, f) ↦ inr (CoreError.queue text, rw (a, b, f, connect, migrate, execute) refl)
    ]
  ]
]
