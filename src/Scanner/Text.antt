-- ===== src/Scanner/Text.antt =====
-- Texts as code points, and the regular expressions of Python's `re` that src/scanner uses, with
-- its order of choice: the leftmost match, greedy, and the first alternative that leads on.
use Prim.Native.Char.{code}
use Prim.Native.String.{String}
use cryptosentinel_ai.Prelude.{
  ℕ, Bool, true, false, ◌&&◌, ◌||◌, Option, none, some, List, [], ◌∷◌, ◌++◌, eqb, leb,
  if◌then◌else◌,
}

abbrev pub Text : Type 0
Text = List ℕ

abbrev pub codes : String → Text
codes String.[] = []
codes (String.◌∷◌ c s) = code c ∷ codes s

abbrev pub either : {A : Type 0} → Option A → Option A → Option A
either none b = b
either (some a) b = some a

abbrev pub is_found : {A : Type 0} → Option A → Bool
is_found none = false
is_found (some _) = true

abbrev pub between : ℕ → ℕ → ℕ → Bool
between lo hi c = leb lo c && leb c hi

-- `str.isspace`, and `\s`
unfoldable pub is_space : ℕ → Bool
is_space c =
    between 9 13 c
    || between 28 32 c
    || eqb c 133
    || eqb c 160
    || eqb c 5760
    || between 8192 8202 c
    || between 8232 8233 c
    || eqb c 8239
    || eqb c 8287
    || eqb c 12288

-- One character, any number, at most one, one or more that are captured, and a choice of words.
pub data Item : Type 0 where
  one many maybe group : (ℕ → Bool) → Item
  choice : List Text → Item

abbrev pub Pattern : Type 0
Pattern = List Item

abbrev pub word_of : Text → Pattern
word_of [] = []
word_of (c ∷ w) = one (λ d. eqb d c) ∷ word_of w

abbrev pub word : String → Pattern
word s = word_of (codes s)

-- `\s*` and `\s+`
abbrev pub spaces : Pattern
spaces = many is_space ∷ []

abbrev pub some_space : Pattern
some_space = one is_space ∷ many is_space ∷ []

-- The text after a prefix.
abbrev pub after_prefix : Text → Text → Option Text
after_prefix [] s = some s
after_prefix (c ∷ w) [] = none
after_prefix (c ∷ w) (d ∷ s) = let rest = after_prefix w s in if eqb d c then rest else none

-- The rest of a match is a function `k` of the text that is left.
abbrev star : (ℕ → Bool) → (Text → Option Text) → Text → Option Text
star t k [] = k []
star t k (c ∷ s) = let more = star t k s in if t c then either more (k (c ∷ s)) else k (c ∷ s)

abbrev grab : (ℕ → Bool) → (Text → Text → Option Text) → Text → Text → Option Text
grab t k taken [] = k taken []
grab t k taken (c ∷ s) =
    let more = grab t k (taken ++ c ∷ []) s in
    if t c then either more (k taken (c ∷ s)) else k taken (c ∷ s)

abbrev on_rest : (Text → Option Text) → Option Text → Option Text
on_rest k none = none
on_rest k (some s) = k s

abbrev any_word : (Text → Option Text) → List Text → Text → Option Text
any_word k [] s = none
any_word k (w ∷ ws) s = either (on_rest k (after_prefix w s)) (any_word k ws s)

abbrev optional : (ℕ → Bool) → (Text → Option Text) → Text → Option Text
optional t k [] = k []
optional t k (c ∷ s) = if t c then either (k s) (k (c ∷ s)) else k (c ∷ s)

abbrev single : (ℕ → Bool) → (Text → Option Text) → Text → Option Text
single t k [] = none
single t k (c ∷ s) = if t c then k s else none

abbrev grab_some : (ℕ → Bool) → (Text → Text → Option Text) → Text → Option Text
grab_some t k [] = none
grab_some t k (c ∷ s) = let taken = grab t k (c ∷ []) s in if t c then taken else none

-- A match at the start of a text: the group that was captured, or what was captured before.
unfoldable pub match_at : Pattern → Text → Text → Option Text
match_at [] captured s = some captured
match_at (one t ∷ p) captured s = single t (match_at p captured) s
match_at (many t ∷ p) captured s = star t (match_at p captured) s
match_at (maybe t ∷ p) captured s = optional t (match_at p captured) s
match_at (group t ∷ p) captured s = grab_some t (match_at p) s
match_at (choice ws ∷ p) captured s = any_word (match_at p captured) ws s

-- `pattern.search(text)`
unfoldable pub search : Pattern → Text → Option Text
search p [] = match_at p [] []
search p (c ∷ s) = either (match_at p [] (c ∷ s)) (search p s)

unfoldable pub matches : Pattern → Text → Bool
matches p s = is_found (search p s)

-- Alternatives of a whole expression, and `any(p.search(text) for p in patterns)`.
unfoldable pub matches_any : List Pattern → Text → Bool
matches_any [] s = false
matches_any (p ∷ ps) s = matches p s || matches_any ps s

-- `word in text`
abbrev pub holds : String → Text → Bool
holds w s = matches (word w) s

-- `text.split("\n")`
abbrev put_char : ℕ → List Text → List Text
put_char c [] = (c ∷ []) ∷ []
put_char c (l ∷ ls) = (c ∷ l) ∷ ls

unfoldable pub split_lines : Text → List Text
split_lines [] = [] ∷ []
split_lines (c ∷ s) = let rest = split_lines s in if eqb c 10 then [] ∷ rest else put_char c rest

-- `"\n".join(lines)`
unfoldable pub join_lines : List Text → Text
join_lines [] = []
join_lines (l ∷ []) = l
join_lines (l ∷ m ∷ ls) = l ++ 10 ∷ join_lines (m ∷ ls)

abbrev pub trim_left : Text → Text
trim_left [] = []
trim_left (c ∷ s) = let rest = trim_left s in if is_space c then rest else c ∷ s

abbrev pub reversed : Text → Text → Text
reversed [] done = done
reversed (c ∷ s) done = reversed s (c ∷ done)

-- `text.strip()`
unfoldable pub strip : Text → Text
strip s = reversed (trim_left (reversed (trim_left s) [])) []
