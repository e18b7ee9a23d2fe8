-- ===== src/Prelude/Text/Defs.antt =====
-- The `str` methods of the Rust standard library that the relay uses, on code points.
use Prim.Native.Char.{code}
use Prim.Native.Nat.{ℕ, zero, suc, ◌+◌, ◌-◌}
use Prim.Native.String.{String}
use mathlib.Core.Bool.{Bool, true, false, ◌&&◌, ◌||◌}
use mathlib.Core.List.{List, [], ◌∷◌, ◌++◌}
use mathlib.Core.Option
use mathlib.Core.Option.{Option, none, some}
use oxid_relay.Prelude.Tests.{leb, ltb, ◌==◌, if◌then◌else◌}
use oxid_relay.Prelude.Lists.{length}

abbrev pub Text : Type 0
Text = List ℕ

-- A string literal as its code points.
abbrev pub codes : String → Text
codes String.[] = []
codes (String.◌∷◌ c s) = code c ∷ codes s

unfoldable pub text_eq : Text → Text → Bool
text_eq [] [] = true
text_eq [] (d ∷ t) = false
text_eq (c ∷ s) [] = false
text_eq (c ∷ s) (d ∷ t) = c == d && text_eq s t

-- The order of Rust strings and of SQLite's BINARY collation: bytewise over UTF-8, which is the
-- lexicographic order of the code points.
unfoldable pub text_ltb : Text → Text → Bool
text_ltb [] [] = false
text_ltb [] (d ∷ t) = true
text_ltb (c ∷ s) [] = false
text_ltb (c ∷ s) (d ∷ t) = ltb c d || (c == d && text_ltb s t)

-- `char::is_whitespace`: the code points with the Unicode property White_Space.
unfoldable pub is_whitespace : ℕ → Bool
is_whitespace c =
    (leb 9 c && leb c 13)
    || c == 32
    || c == 0x85
    || c == 0xa0
    || c == 0x1680
    || (leb 0x2000 c && leb c 0x200a)
    || c == 0x2028
    || c == 0x2029
    || c == 0x202f
    || c == 0x205f
    || c == 0x3000

-- `trim_start_matches` with a character test.
unfoldable pub trim_start_matches : (ℕ → Bool) → Text → Text
trim_start_matches p [] = []
trim_start_matches p (c ∷ s) = if p c then trim_start_matches p s else c ∷ s

-- `trim_end_matches` with a character test: `c` goes if all that follows it goes.
unfoldable pub trim_end_matches : (ℕ → Bool) → Text → Text
trim_end_matches p [] = []
trim_end_matches p (c ∷ s) = elim (trim_end_matches p s) [
  | [] ↦ if p c then [] else c ∷ []
  | d ∷ t ↦ c ∷ d ∷ t
]

unfoldable pub trim_start : Text → Text
unfolding trim_start_matches is_whitespace
trim_start = trim_start_matches is_whitespace

unfoldable pub trim_end : Text → Text
unfolding trim_end_matches is_whitespace
trim_end = trim_end_matches is_whitespace

unfoldable pub trim : Text → Text
unfolding trim_start trim_end
trim s = trim_end (trim_start s)

unfoldable pub starts_with : Text → Text → Bool
starts_with s [] = true
starts_with [] (d ∷ pat) = false
starts_with (c ∷ s) (d ∷ pat) = c == d && starts_with s pat

-- `s.contains(pat)`
unfoldable pub contains : Text → Text → Bool
unfolding starts_with
contains [] pat = starts_with [] pat
contains (c ∷ s) pat = starts_with (c ∷ s) pat || contains s pat

-- The scan of `replace`: the first `skip` characters are the rest of a match.
unfoldable pub replace_from : Text → Text → ℕ → Text → Text
unfolding starts_with
replace_from pat rep skip [] = []
replace_from pat rep (suc skip) (c ∷ s) = replace_from pat rep skip s
replace_from pat rep zero (c ∷ s) =
    let matched = rep ++ replace_from pat rep (length pat - 1) s in
    let passed = c ∷ replace_from pat rep zero s in
    if starts_with (c ∷ s) pat then matched else passed

-- `s.replace(pat, rep)` for a pattern that is not empty: matches from the left, none overlapping.
unfoldable pub replace : Text → Text → Text → Text
unfolding replace_from
replace s pat rep = replace_from pat rep 0 s

unfoldable pub to_ascii_lowercase : ℕ → ℕ
to_ascii_lowercase c = if leb 65 c && leb c 90 then c + 32 else c

unfoldable pub eq_ignore_ascii_case : Text → Text → Bool
unfolding to_ascii_lowercase
eq_ignore_ascii_case [] [] = true
eq_ignore_ascii_case [] (d ∷ t) = false
eq_ignore_ascii_case (c ∷ s) [] = false
eq_ignore_ascii_case (c ∷ s) (d ∷ t) =
    to_ascii_lowercase c == to_ascii_lowercase d && eq_ignore_ascii_case s t

-- `s.strip_suffix(suffix)`
unfoldable pub strip_suffix : Text → Text → Option Text
unfolding text_eq
strip_suffix [] suffix = if text_eq [] suffix then some [] else none
strip_suffix (c ∷ s) suffix =
    let rest = Option.map (λ (t : Text). c ∷ t) (strip_suffix s suffix) in
    if text_eq (c ∷ s) suffix then some [] else rest
