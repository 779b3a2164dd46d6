-- ===== src/Version/Check.antt =====
-- `VersionCheck` of src/update/version_check.h and version_check.cpp: what it makes of the
-- answer.
use inmar_scope.Prelude.{
  ℕ, ◌≡◌, refl, ap, ◌∙◌, arith, [], ◌∷◌, ◌++◌, Bool, true, false, not, ◌&&◌, ◌||◌, ◌==◌,
  if◌then◌else◌, Option, none, some, Text, is_empty, codes, if_either,
}
use inmar_scope.Version.{is_space, cmp_version, Order, less, equal, greater}

-- What is left of a text behind a text that it starts with.
unfoldable pub strip : Text → Text → Option Text
strip [] s = some s
strip (p ∷ ps) [] = none
strip (p ∷ ps) (c ∷ s) = let rest = strip ps s in if p == c then rest else none

-- What stands behind the first occurrence of a text.
unfoldable pub behind : Text → Text → Option Text
unfolding strip
behind pat [] = strip pat []
behind pat (c ∷ s) = elim (strip pat (c ∷ s)) [ none ↦ behind pat s | some rest ↦ some rest ]

unfoldable pub skip_spaces : Text → Text
skip_spaces [] = []
skip_spaces (c ∷ s) = if is_space c then skip_spaces s else c ∷ s

-- A backslash before another character.
abbrev pub starts_escape : ℕ → Text → Bool
starts_escape c s = (c == 92) && not (is_empty s)

-- The text up to the quote, after a backslash or not.
unfoldable pub unquote : Bool → Text → Text
unquote escaped [] = []
unquote true (c ∷ s) = c ∷ unquote false s
unquote false (c ∷ s) =
    let rest = unquote (starts_escape c s) s in
    if c == 34 then [] else if starts_escape c s then rest else c ∷ rest

unfoldable pub quoted_value : Text → Text
unfolding unquote
quoted_value [] = []
quoted_value (c ∷ s) = if c == 34 then unquote false s else []

unfoldable pub value_behind : Option Text → Text
unfolding quoted_value skip_spaces
value_behind none = []
value_behind (some s) = quoted_value (skip_spaces s)

-- The value behind a key and a colon.
unfoldable pub value_under : Option Text → Text
unfolding behind value_behind
value_under none = []
value_under (some s) = value_behind (behind (58 ∷ []) s)

unfoldable pub json_string : Text → Text → Text
unfolding behind value_under
json_string body key = value_under (behind (34 ∷ key ++ 34 ∷ []) body)

pub data State : Type 0 where
  idle : State
  checking : State
  up_to_date : State
  update_available : State
  unreleased : State
  failed : State

pub record VersionCheck : Type 0 where
  pub started : Bool
  pub state : State
  pub latest : Text
  pub url : Text
  pub err : Text

unfoldable pub start : VersionCheck → VersionCheck
start c = if c.started then c else record c { started = true; state = checking }

abbrev pub state_of : Order → State
state_of less = update_available
state_of equal = up_to_date
state_of greater = unreleased

-- What comes of the request: the step that has failed, or the body, which is empty if nothing came.
pub data Answer : Type 0 where
  no_answer : Text → Answer
  body_of : Text → Answer

abbrev pub fail : VersionCheck → Text → VersionCheck
fail c why = record c { err = why; state = failed }

unfoldable pub run : VersionCheck → Text → Answer → VersionCheck
unfolding json_string cmp_version
run c local (no_answer why) = fail c why
run c local (body_of body) =
    let latest = json_string body (codes "version") in
    if is_empty body then fail c (codes "request failed") else record c {
      latest = latest;
      url = json_string body (codes "product_url");
      state = if is_empty latest then up_to_date else state_of (cmp_version local latest);
    }

-- `run` on the other platforms.
unfoldable pub run_unsupported : VersionCheck → VersionCheck
run_unsupported c = fail c (codes "unsupported platform")

-- A text with a backslash before each quote and each backslash.
abbrev pub escape : Text → Text
escape [] = []
escape (c ∷ s) = if (c == 34) || (c == 92) then 92 ∷ c ∷ escape s else c ∷ escape s

unquote-cons :
    (c : ℕ) (s : Text)
    → ((c == 34) || (c == 92)) ≡ false
    → unquote false (c ∷ s) ≡ c ∷ unquote false s
unfolding unquote
unquote-cons c s plain =
    let no : starts_escape c s ≡ false = ground (arith, plain) in
    ap (λ (b : Bool). if c == 34 then [] else if b then unquote b s else c ∷ unquote b s) no
    ∙ ground (arith, plain)

unquote-escape : (s more : Text) → unquote false (escape s ++ 34 ∷ more) ≡ s
unfolding unquote
unquote-escape [] more = refl
unquote-escape (c ∷ s) more =
    if_either (λ (t : Text). unquote false (t ++ 34 ∷ more) ≡ c ∷ s) ((c == 34) || (c == 92))
      (λ special. ap (λ (t : Text). c ∷ t) (unquote-escape s more))
      (λ plain.
        unquote-cons c (escape s ++ 34 ∷ more) plain
        ∙ ap (λ (t : Text). c ∷ t) (unquote-escape s more))

strip-append : (p s : Text) → strip p (p ++ s) ≡ some s
unfolding strip
strip-append [] s = refl
strip-append (c ∷ p) s = ground (arith, strip-append p s)

behind-append : (c : ℕ) (p s : Text) → behind (c ∷ p) ((c ∷ p) ++ s) ≡ some s
unfolding behind
behind-append c p s =
    ap (λ (o : Option Text). elim o [ none ↦ behind (c ∷ p) (p ++ s) | some rest ↦ some rest ])
      (strip-append (c ∷ p) s)

value_under-colon : (s more : Text) → value_under (some (58 ∷ 34 ∷ escape s ++ 34 ∷ more)) ≡ s
unfolding value_under behind strip value_behind quoted_value skip_spaces
value_under-colon s more = unquote-escape s more

-- An object that holds a text under a key, with whatever behind it.
abbrev pub printed : Text → Text → Text → Text
printed key s more = (34 ∷ key ++ 34 ∷ []) ++ (58 ∷ 34 ∷ escape s ++ 34 ∷ more)

strip_other : (c d : ℕ) (p s : Text) → (c == d) ≡ false → strip (c ∷ p) (d ∷ s) ≡ none
unfolding strip
strip_other c d p s h = ground (arith, h)

behind_other : (c d : ℕ) (p s : Text) → (c == d) ≡ false → behind (c ∷ p) (d ∷ s) ≡ behind (c ∷ p) s
unfolding behind
behind_other c d p s h =
    ap (λ (o : Option Text). elim o [ none ↦ behind (c ∷ p) s | some rest ↦ some rest ])
      (strip_other c d p s h)

abbrev pub no_quote : Text → Bool
no_quote [] = true
no_quote (c ∷ s) = not (34 == c) && no_quote s

behind-printed :
    (before p s : Text)
    → no_quote before ≡ true
    → behind (34 ∷ p) (before ++ ((34 ∷ p) ++ s)) ≡ some s
behind-printed [] p s h = behind-append 34 p s
behind-printed (c ∷ before) p s h =
    behind_other 34 c p (before ++ ((34 ∷ p) ++ s)) (ground (arith, h))
    ∙ behind-printed before p s (ground (arith, h))

-- Of a text that is printed behind a key with a backslash before each quote and each backslash,
-- `jsonString` gives the text back, whatever the key, the text and what comes behind it, if no
-- quote stands in front of the key.
pub json_string-printed :
    (before key s more : Text)
    → no_quote before ≡ true
    → json_string (before ++ printed key s more) key ≡ s
unfolding json_string
json_string-printed before key s more h =
    ap value_under (behind-printed before (key ++ 34 ∷ []) (58 ∷ 34 ∷ escape s ++ 34 ∷ more) h)
    ∙ value_under-colon s more
