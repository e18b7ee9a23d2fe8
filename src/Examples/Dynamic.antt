-- ===== src/Examples/Dynamic.antt =====
-- A concrete form of Rhai's values, with its conversions.
use oxid_relay.Prelude.{ℕ, ◌≡◌, refl, ap, Option, none, some, List, [], ◌∷◌}
use oxid_relay.Prelude.Text.{Text, codes}
use oxid_relay.Prelude.Assoc.{Assoc}
use oxid_relay.Prelude.Result.{Result, ok, err}
use oxid_relay.Plugin.Engine.{Rhai}
use oxid_relay.Plugin.Transport.Reading.{Casts, IsCasts}

mutual
  pub data Dynamic : Type 0 where
    string : Text → Dynamic
    integer : ℕ → Dynamic
    table : Entries → Dynamic
    array : Elements → Dynamic

  pub data Entries : Type 0 where
    no_entry : Entries
    entry : Text → Dynamic → Entries → Entries

  pub data Elements : Type 0 where
    no_element : Elements
    element : Dynamic → Elements → Elements

abbrev entries : Assoc Dynamic → Entries
entries [] = no_entry
entries ((k, v) ∷ m) = entry k v (entries m)

abbrev assoc : Entries → Assoc Dynamic
assoc no_entry = []
assoc (entry k v m) = (k, v) ∷ assoc m

abbrev elements : List Dynamic → Elements
elements [] = no_element
elements (v ∷ vs) = element v (elements vs)

abbrev listed : Elements → List Dynamic
listed no_element = []
listed (element v vs) = v ∷ listed vs

assoc-entries : (m : Assoc Dynamic) → assoc (entries m) ≡ m
assoc-entries [] = refl
assoc-entries ((k, v) ∷ m) = ap (◌∷◌ (k, v)) (assoc-entries m)

listed-elements : (vs : List Dynamic) → listed (elements vs) ≡ vs
listed-elements [] = refl
listed-elements (v ∷ vs) = ap (◌∷◌ v) (listed-elements vs)

abbrev string_of : Dynamic → Result Text Text
string_of (string t) = ok t
string_of (integer n) = err (codes "i64")
string_of (table m) = err (codes "map")
string_of (array vs) = err (codes "array")

abbrev pub rhai : Rhai Dynamic Text
rhai = record {
  from_text = string;
  from_int = integer;
  from_map = λ m. table (entries m);
  from_array = λ vs. array (elements vs);
  into_string = string_of;
  error_from = λ e. e;
  display = λ e. e;
}

abbrev text_cast : Dynamic → Option Text
text_cast (string t) = some t
text_cast (integer n) = none
text_cast (table m) = none
text_cast (array vs) = none

abbrev map_cast : Dynamic → Option (Assoc Dynamic)
map_cast (string t) = none
map_cast (integer n) = none
map_cast (table m) = some (assoc m)
map_cast (array vs) = none

abbrev array_cast : Dynamic → Option (List Dynamic)
array_cast (string t) = none
array_cast (integer n) = none
array_cast (table m) = none
array_cast (array vs) = some (listed vs)

abbrev pub casts : Casts Dynamic
casts = record { as_text = text_cast; as_map = map_cast; as_array = array_cast }

pub casts-IsCasts : IsCasts rhai casts
casts-IsCasts = record {
  text_back = λ t. refl;
  map_back = λ m. ap some (assoc-entries m);
  array_back = λ vs. ap some (listed-elements vs);
}
