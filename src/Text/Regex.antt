-- ===== src/Text/Regex.antt =====
-- What the sources use of Go's regexp on ASCII: whether a text holds a match of a pattern, by derivatives.
-- A position is told by the characters before and after it, none at the ends of the text.
use forge_wingman.Prelude.{
  ℕ, ◌+◌, Bool, true, false, not, ◌&&◌, ◌||◌, Option, none, some, List, [], ◌∷◌, leb, ◌==◌,
  if◌then◌else◌, contains_func,
}
use forge_wingman.Text.{Text, lower_code}

pub data Regex : Type 0 where
  never empty word_edge text_start line_start text_end : Regex
  one_of : (ℕ → Bool) → Regex
  seq alt : Regex → Regex → Regex
  many : Regex → Regex

abbrev pub is_digit : ℕ → Bool
is_digit c = leb b'0' c && leb c b'9'

abbrev pub is_letter : ℕ → Bool
is_letter c = leb b'a' c && leb c b'z' || leb b'A' c && leb c b'Z'

-- \w
abbrev pub is_word : ℕ → Bool
is_word c = is_letter c || is_digit c || c == b'_'

abbrev in_word : Option ℕ → Bool
in_word none = false
in_word (some c) = is_word c

abbrev differ : Bool → Bool → Bool
differ true b = not b
differ false b = b

abbrev is_end : Option ℕ → Bool
is_end none = true
is_end (some c) = false

abbrev starts_line : Option ℕ → Bool
starts_line none = true
starts_line (some c) = c == b'\n'

-- Whether the pattern matches nothing at a position.
accepts : Option ℕ → Option ℕ → Regex → Bool
accepts prev next never = false
accepts prev next empty = true
accepts prev next word_edge = differ (in_word prev) (in_word next)
accepts prev next text_start = is_end prev
accepts prev next line_start = starts_line prev
accepts prev next text_end = is_end next
accepts prev next (one_of p) = false
accepts prev next (seq r s) = accepts prev next r && accepts prev next s
accepts prev next (alt r s) = accepts prev next r || accepts prev next s
accepts prev next (many r) = true

then_also : Regex → Regex → Regex
then_also never s = never
then_also empty s = s
then_also r s = seq r s

or_else : Regex → Regex → Regex
or_else never s = s
or_else r s = alt r s

-- What has to match after the character `c`.
deriv : Option ℕ → ℕ → Regex → Regex
unfolding accepts then_also or_else
deriv prev c (one_of p) = if p c then empty else never
deriv prev c (seq r s) =
    or_else (then_also (deriv prev c r) s)
      (if accepts prev (some c) r then deriv prev c s else never)
deriv prev c (alt r s) = or_else (deriv prev c r) (deriv prev c s)
deriv prev c (many r) = then_also (deriv prev c r) (many r)
deriv prev c _ = never

-- A match starts at the head of the text.
unfoldable pub match_here : Option ℕ → Regex → Text → Bool
unfolding accepts deriv
match_here prev never s = false
match_here prev r [] = accepts prev none r
match_here prev r (c ∷ s) = accepts prev (some c) r || match_here (some c) (deriv prev c r) s

unfoldable pub match_from : Option ℕ → Regex → Text → Bool
unfolding match_here
match_from prev r [] = match_here prev r []
match_from prev r (c ∷ s) = match_here prev r (c ∷ s) || match_from (some c) r s

-- re.MatchString(s)
unfoldable pub is_match : Regex → Text → Bool
unfolding match_from
is_match r s = match_from none r s

-- How many positions a match starts at: len(re.FindAllStringIndex(s, -1)) where no two matches overlap.
unfoldable pub count_matches : Option ℕ → Regex → Text → ℕ
unfolding match_here
count_matches prev r [] = if match_here prev r [] then 1 else 0
count_matches prev r (c ∷ s) =
    (if match_here prev r (c ∷ s) then 1 else 0) + count_matches (some c) r s

abbrev pub all_of : List Regex → Regex
all_of [] = empty
all_of (r ∷ []) = r
all_of (r ∷ rs) = seq r (all_of rs)

abbrev pub any_of : List Regex → Regex
any_of [] = never
any_of (r ∷ []) = r
any_of (r ∷ rs) = alt r (any_of rs)

abbrev pub maybe : Regex → Regex
maybe r = alt r empty

abbrev pub some_of : Regex → Regex
some_of r = seq r (many r)

-- The text itself, its letters in either case.
abbrev pub folded : Text → Regex
folded [] = empty
folded (c ∷ []) = one_of (λ d. lower_code d == lower_code c)
folded (c ∷ s) = seq (one_of (λ d. lower_code d == lower_code c)) (folded s)

-- One of the characters.
abbrev pub among : Text → Regex
among cs = one_of (λ d. contains_func (λ c. d == c) cs)

-- Any character but these.
abbrev pub none_of : Text → Regex
none_of cs = one_of (λ d. not (contains_func (λ c. d == c) cs))
