-- ===== src/Examples/Formats.antt =====
-- A concrete codec: a number is written as one code point, a text ends in 0 and each of its code
-- points is written as its successor, and a list begins with its length.
use mathlib.Core.Option.{Option}
use oxid_relay.Prelude.{
  ℕ, zero, suc, ◌≡◌, ◌∙◌, refl, ap, Option, none, some, List, [], ◌∷◌, length, arith,
}
use oxid_relay.Prelude.Text.{Text, codes, text_ltb}
use oxid_relay.Prelude.Result.{Result, ok, err}
use oxid_relay.Message.{Address}
use oxid_relay.Queue.Row.{Codec}
use oxid_relay.Queue.Row.RoundTrip.{IsCodec}

abbrev put : Text → Text → Text
put [] rest = 0 ∷ rest
put (c ∷ t) rest = suc c ∷ put t rest

abbrev read : Text → Text × Text
read [] = ([], [])
read (zero ∷ s) = ([], s)
read (suc c ∷ s) = (c ∷ (read s).0, (read s).1)

read-put : (t rest : Text) → read (put t rest) ≡ (t, rest)
read-put [] rest = refl
read-put (c ∷ t) rest = rw (read-put t rest) refl

abbrev put_name : Option Text → Text → Text
put_name none rest = 0 ∷ rest
put_name (some n) rest = 1 ∷ put n rest

abbrev pub put_address : Address → Text → Text
put_address a rest = put a.email (put_name a.name rest)

abbrev read_name : Text → Option Text × Text
read_name [] = (none, [])
read_name (zero ∷ s) = (none, s)
read_name (suc c ∷ s) = (some (read s).0, (read s).1)

read_name-put : (o : Option Text) (rest : Text) → read_name (put_name o rest) ≡ (o, rest)
read_name-put none rest = refl
read_name-put (some n) rest = rw (read-put n rest) refl

abbrev read_address : Text → Address × Text
read_address s =
    (record { email = (read s).0; name = (read_name (read s).1).0 }, (read_name (read s).1).1)

read_address-put : (a : Address) (rest : Text) → read_address (put_address a rest) ≡ (a, rest)
read_address-put a rest =
    rw (read-put a.email (put_name a.name rest)) (rw (read_name-put a.name rest) refl)

abbrev pub put_addresses : List Address → Text
put_addresses [] = []
put_addresses (a ∷ xs) = put_address a (put_addresses xs)

abbrev read_addresses : ℕ → Text → List Address
read_addresses zero s = []
read_addresses (suc n) s = (read_address s).0 ∷ read_addresses n (read_address s).1

read_addresses-put : (xs : List Address) → read_addresses (length xs) (put_addresses xs) ≡ xs
read_addresses-put [] = refl
read_addresses-put (a ∷ xs) =
    ap (λ (p : Address × Text). p.0 ∷ read_addresses (length xs) p.1)
      (read_address-put a (put_addresses xs))
    ∙ ap (◌∷◌ a) (read_addresses-put xs)

abbrev parse_number : Text → Result ℕ Text
parse_number (t ∷ []) = ok t
parse_number _ = err (codes "not a number")

abbrev parse_addresses : Text → Result (List Address) Text
parse_addresses [] = err (codes "no list")
parse_addresses (n ∷ s) = ok (read_addresses n s)

abbrev pub codec : Codec
codec = record {
  to_rfc3339 = λ t. t ∷ [];
  parse_from_rfc3339 = parse_number;
  uuid_to_string = λ i. i ∷ [];
  parse_uuid = parse_number;
  address_to_json = λ a. ok (put_address a []);
  address_from_json = λ s. ok (read_address s).0;
  addresses_to_json = λ xs. ok (length xs ∷ put_addresses xs);
  addresses_from_json = parse_addresses;
  unique_violation = codes "UNIQUE constraint failed: mails.id";
}

pub codec-IsCodec : IsCodec codec
unfolding text_ltb
codec-IsCodec = record {
  time_back = λ t h. refl;
  time_order = λ t u h k. ground arith;
  uuid_back = λ i. refl;
  address_back = λ a. (_, refl, ap (λ (r : Address × Text). ok r.0) (read_address-put a []));
  addresses_back = λ xs. (_, refl, ap ok (read_addresses-put xs));
}
