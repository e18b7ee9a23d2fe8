-- ===== src/Config/Load/Laws.antt =====
-- The configuration that `Config::load` returns.
use oxid_relay.Prelude.{◌≡◌, ◌↔◌, inl, inr, arith}
use oxid_relay.Prelude.Text.{Text}
use oxid_relay.Prelude.Result.{ok, Result-cases}
use oxid_relay.Config.{Config}
use oxid_relay.Config.Load.{ReadFile, TomlParser, from_toml_str, load}
use oxid_relay.Config.Validate.Laws.{IsGood, validate-IsGood}

from_toml_str_iff :
    (toml : TomlParser) (raw : Text) (c : Config)
    → (from_toml_str toml raw ≡ ok c) ↔ ((toml raw ≡ ok c) × IsGood c)
unfolding from_toml_str
from_toml_str_iff toml raw c = elim (Result-cases (toml raw)) [
  | inl (d, e) ↦ rw e (ground (arith, validate-IsGood d, validate-IsGood c))
  | inr (x, e) ↦ rw e (ground arith)
]

-- `load` returns `c` exactly when the file was read, its text parses to `c` and `c` is good.
pub load_iff :
    (fs : ReadFile) (toml : TomlParser) (path : Text) (c : Config)
    → (load fs toml path ≡ ok c)
      ↔ ((raw : Text) × (fs path ≡ ok raw) × (toml raw ≡ ok c) × IsGood c)
unfolding load
load_iff fs toml path c = elim (Result-cases (fs path)) [
  | inl (raw, e) ↦ (
    λ h. let g = (from_toml_str_iff toml raw c).0 (rw e at h) in (raw, e, g.0, g.1),
    λ w. ground (arith, from_toml_str_iff toml w.0 c),
  )
  | inr (x, e) ↦ (λ h. absurd (ground arith), λ w. ground arith)
]
