-- ===== src/Queue/Table.antt =====
-- `UPDATE ... WHERE ...` on the list of the rows, in the order in which the engine finds them.
use oxid_relay.Prelude.{Bool, List, [], ◌∷◌, if◌then◌else◌}

unfoldable pub update_where {ℓ} : {A : Type ℓ} → (A → Bool) → (A → A) → List A → List A
update_where p f [] = []
update_where p f (x ∷ xs) = (if p x then f x else x) ∷ update_where p f xs
