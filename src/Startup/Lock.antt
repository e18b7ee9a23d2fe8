-- ===== src/Startup/Lock.antt =====
-- The lock file of crates/oxid-relay/src/main.rs against the database that is opened.
use oxid_relay.Prelude.{
  ◌≡◌, ◌≢◌, ◌⊎◌, refl, ap, false, none, some, ◌++◌, length, length-append, arith,
}
use oxid_relay.Prelude.Text.{Text, codes, starts_with}
use oxid_relay.Startup.{sqlite_url, lock_path}

lock_path-cases : (d : Text) → (lock_path d ≡ none) ⊎ (lock_path d ≡ some (d ++ codes ".lock"))
unfolding lock_path
lock_path-cases d = ground arith

longer : (d : Text) → (codes "sqlite:" ++ d) ++ codes ".lock" ≢ d ++ codes ".lock"
longer d e = absurd (
    omega (
      arith,
      ap length e,
      length-append {0} (codes "sqlite:" ++ d) (codes ".lock"),
      length-append {0} (codes "sqlite:") d,
      length-append {0} d (codes ".lock"),
    ))

-- A database value that is locked and does not begin with `sqlite:` opens the same database as the
-- value with that prefix, and yet the two do not take the same lock.
pub sqlite_url-lock_path :
    (d p : Text)
    → starts_with d (codes "sqlite:") ≡ false
    → lock_path d ≡ some p
    → (sqlite_url (codes "sqlite:" ++ d) ≡ sqlite_url d)
      × (lock_path (codes "sqlite:" ++ d) ≢ lock_path d)
unfolding sqlite_url starts_with
sqlite_url-lock_path d p plain locked = (
  rw (plain, sqlite_url) refl,
  λ e. absurd (ground (arith, longer d, lock_path-cases d, lock_path-cases (codes "sqlite:" ++ d))),
)
