-- ===== src/Plugin/Transport/Reading.antt =====
-- What a script reads in the map that `mail_to_map` of crates/plugin/src/transport.rs makes of a mail.
use oxid_relay.Prelude.{◌≡◌, refl, inl, inr, Option, none, some, List, [], ◌∷◌, Option-cases}
use oxid_relay.Prelude.Text.{Text, codes, text_eq}
use oxid_relay.Prelude.Assoc.{Assoc, get, insert}
use oxid_relay.Message.{Address, Mail}
use oxid_relay.Plugin.Engine.{Rhai}
use oxid_relay.Plugin.Transport.{address_map, recipients, mail_to_map}

-- How a script takes a dynamic value apart.
pub record Casts (V : Type 0) : Type 0 where
  pub as_text : V → Option Text
  pub as_map : V → Option (Assoc V)
  pub as_array : V → Option (List V)

-- A value that was made of a string, a map or an array can be taken apart into it.
pub record IsCasts {V E : Type 0} (rhai : Rhai V E) (casts : Casts V) : Type 0 where
  pub text_back : (t : Text) → casts.as_text (rhai.from_text t) ≡ some t
  pub map_back : (m : Assoc V) → casts.as_map (rhai.from_map m) ≡ some m
  pub array_back : (xs : List V) → casts.as_array (rhai.from_array xs) ≡ some xs

-- What a mail is to a plugin.
pub record Content : Type 0 where
  pub from : Address
  pub to : List Address
  pub subject : Text
  pub body : Text

abbrev pub content_of : Mail → Content
content_of m = record { from = m.from; to = m.to; subject = m.subject; body = m.body }

infixl 5 ◌then◌
abbrev ◌then◌ : {A B : Type 0} → Option A → (A → Option B) → Option B
none then f = none
some a then f = f a

module _ {V : Type 0} (casts : Casts V) where
  unfoldable pub text_at : Assoc V → Text → Option Text
  text_at m key = get m key then casts.as_text

  -- A missing entry is a value too; one of another type is not.
  unfoldable pub optional_text_at : Assoc V → Text → Option (Option Text)
  optional_text_at m key = elim (get m key) [
    | none ↦ some none
    | some v ↦ casts.as_text v then λ t. some (some t)
  ]

  unfoldable pub read_address : V → Option Address
  unfolding text_at optional_text_at
  read_address v = casts.as_map v then λ m. text_at m (codes "email") then λ email.
      optional_text_at m (codes "name") then λ name. some (record { email = email; name = name })

  unfoldable pub read_addresses : List V → Option (List Address)
  unfolding read_address
  read_addresses [] = some []
  read_addresses (v ∷ vs) = read_address v then λ a. read_addresses vs then λ rest. some (a ∷ rest)

  unfoldable pub read_mail : Assoc V → Option Content
  unfolding read_addresses
  read_mail m = get m (codes "from") then λ f. read_address f then λ from.
      get m (codes "to") then λ l. casts.as_array l then λ vs. read_addresses vs then λ to.
      text_at m (codes "subject") then λ subject. text_at m (codes "body") then λ body.
      some (record { from = from; to = to; subject = subject; body = body })

module _ {V E : Type 0} (rhai : Rhai V E) (casts : Casts V) (lawful : IsCasts rhai casts) where
  read_address-address_map :
      (a : Address) → read_address casts (rhai.from_map (address_map rhai a)) ≡ some a
  unfolding read_address address_map text_at optional_text_at get insert text_eq
  read_address-address_map a = elim (Option-cases a.name) [
    | inl e ↦
        rw (e, address_map, lawful.map_back, text_at, get, lawful.text_back, optional_text_at) refl
    | inr (n, e) ↦
        rw (e, address_map, lawful.map_back, lawful.text_back a.email, lawful.text_back n) refl
  ]

  read_addresses-recipients :
      (xs : List Address) → read_addresses casts (recipients rhai xs) ≡ some xs
  unfolding read_addresses recipients
  read_addresses-recipients [] = refl
  read_addresses-recipients (a ∷ xs) =
      rw (read_address-address_map a, read_addresses-recipients xs) refl

  -- A script that takes the map of a mail apart finds the mail's sender, all its recipients in order,
  -- each with its name where it has one, its subject and its body.
  pub read_mail-mail_to_map :
      (m : Mail) → read_mail casts (mail_to_map rhai m) ≡ some (content_of m)
  unfolding read_mail mail_to_map text_at get insert text_eq
  read_mail-mail_to_map m =
      rw
        (
          read_address-address_map m.from,
          lawful.array_back,
          read_addresses-recipients m.to,
          lawful.text_back m.subject,
          lawful.text_back m.body,
        )
        refl
