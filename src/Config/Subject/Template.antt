-- ===== src/Config/Subject/Template.antt =====
-- The rendered subject against the format read as a template.
use oxid_relay.Prelude.{◌≡◌, ◌≢◌, refl, ap, ◌∙◌, true, false, List, [], ◌∷◌, ◌++◌, arith}
use oxid_relay.Prelude.Text.{Text, codes, starts_with, contains, replace, replace_from}
use oxid_relay.Config.{SubjectConfig}
use oxid_relay.Config.Subject.{format_for, render, name_placeholder}
use oxid_relay.Config.Validate.{original_placeholder}

-- A format as the text between its placeholders.
pub data Piece : Type 0 where
  literal : Text → Piece
  name original : Piece

abbrev pub written : Piece → Text
written (literal t) = t
written name = name_placeholder
written original = original_placeholder

abbrev pub format_of : List Piece → Text
format_of [] = []
format_of (p ∷ ps) = written p ++ format_of ps

abbrev filled : Text → Text → Piece → Text
filled sender subject (literal t) = t
filled sender subject name = sender
filled sender subject original = subject

-- What the format means: each placeholder gives way to its value, once.
abbrev pub fill : Text → Text → List Piece → Text
fill sender subject [] = []
fill sender subject (p ∷ ps) = filled sender subject p ++ fill sender subject ps

-- No `%` in the text.
abbrev pub IsPlain : Text → Type 0
IsPlain [] = Unit {0}
IsPlain (c ∷ s) = (c ≢ b'%') × IsPlain s

-- The literals hold no `%`, and no `%original%` runs into a text that its last `%` would turn into
-- `%name%`.
abbrev pub IsClear : List Piece → Type 0
IsClear [] = Unit {0}
IsClear (literal t ∷ ps) = IsPlain t × IsClear ps
IsClear (name ∷ ps) = IsClear ps
IsClear (original ∷ ps) = (starts_with (format_of ps) (codes "name%") ≡ false) × IsClear ps

replace-plain :
    (pat rep t s : Text)
    → IsPlain t
    → replace_from (b'%' ∷ pat) rep 0 (t ++ s) ≡ t ++ replace_from (b'%' ∷ pat) rep 0 s
unfolding replace_from
replace-plain pat rep [] s h = refl
replace-plain pat rep (c ∷ t) s h = ground (arith, replace-plain pat rep t s h.1)

replace-name :
    (rep s : Text)
    → replace_from name_placeholder rep 0 (name_placeholder ++ s)
      ≡ rep ++ replace_from name_placeholder rep 0 s
unfolding replace_from
replace-name rep s = refl

replace-original :
    (rep s : Text)
    → replace_from original_placeholder rep 0 (original_placeholder ++ s)
      ≡ rep ++ replace_from original_placeholder rep 0 s
unfolding replace_from
replace-original rep s = refl

-- The first pass leaves `%original%` alone.
keep-original :
    (rep s : Text)
    → starts_with s (codes "name%") ≡ false
    → replace_from name_placeholder rep 0 (original_placeholder ++ s)
      ≡ original_placeholder ++ replace_from name_placeholder rep 0 s
unfolding replace_from
keep-original rep s h = rw h

first_pass : Text → Piece → Text
first_pass sender (literal t) = t
first_pass sender name = sender
first_pass sender original = original_placeholder

named : Text → List Piece → Text
unfolding first_pass
named sender [] = []
named sender (p ∷ ps) = first_pass sender p ++ named sender ps

replace_name-format_of :
    (sender : Text) (ps : List Piece)
    → IsClear ps
    → replace_from name_placeholder sender 0 (format_of ps) ≡ named sender ps
unfolding named
replace_name-format_of sender [] h = unfold replace_from in refl
replace_name-format_of sender (literal t ∷ ps) h =
    replace-plain (codes "name%") sender t (format_of ps) h.0
    ∙ ap (◌++◌ t) (replace_name-format_of sender ps h.1)
replace_name-format_of sender (name ∷ ps) h =
    replace-name sender (format_of ps) ∙ ap (◌++◌ sender) (replace_name-format_of sender ps h)
replace_name-format_of sender (original ∷ ps) h =
    keep-original sender (format_of ps) h.0
    ∙ ap (◌++◌ original_placeholder) (replace_name-format_of sender ps h.1)

replace_original-named :
    (sender subject : Text) (ps : List Piece)
    → IsPlain sender
    → IsClear ps
    → replace_from original_placeholder subject 0 (named sender ps) ≡ fill sender subject ps
unfolding named
replace_original-named sender subject [] plain h = unfold replace_from in refl
replace_original-named sender subject (literal t ∷ ps) plain h =
    replace-plain (codes "original%") subject t (named sender ps) h.0
    ∙ ap (◌++◌ t) (replace_original-named sender subject ps plain h.1)
replace_original-named sender subject (name ∷ ps) plain h =
    replace-plain (codes "original%") subject sender (named sender ps) plain
    ∙ ap (◌++◌ sender) (replace_original-named sender subject ps plain h)
replace_original-named sender subject (original ∷ ps) plain h =
    replace-original subject (named sender ps)
    ∙ ap (◌++◌ subject) (replace_original-named sender subject ps plain h.1)

-- For a sender without `%`, and a format made of literals without `%` and the two placeholders, in
-- which no `%original%` is followed by `name%`, the rendered subject is the format with the sender
-- at each `%name%` and the incoming subject, whatever it holds, at each `%original%`.
pub render-fill :
    (s : SubjectConfig) (sender subject : Text) (ps : List Piece)
    → format_for s sender ≡ format_of ps
    → IsPlain sender
    → IsClear ps
    → render s sender subject ≡ fill sender subject ps
unfolding render replace
render-fill s sender subject ps e plain clear =
    rw (e, replace_name-format_of sender ps clear)
      (replace_original-named sender subject ps plain clear)

-- The format `%name%original%` passes the configuration's check for `%original%`, and yet drops the
-- incoming subject of every sender without `%`: the two placeholders share a `%`, which the first
-- pass takes away.
pub render_drops_original :
    (s : SubjectConfig) (sender subject : Text)
    → format_for s sender ≡ codes "%name%original%"
    → IsPlain sender
    → (contains (format_for s sender) original_placeholder ≡ true)
      × (render s sender subject ≡ sender ++ codes "original%")
unfolding render replace contains
render_drops_original s sender subject e plain = rw e (
  refl,
  replace-plain (codes "original%") subject sender (codes "original%") plain
      ∙ ap (◌++◌ sender) refl,
)
