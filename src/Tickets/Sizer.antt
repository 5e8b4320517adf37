-- ===== src/Tickets/Sizer.antt =====
-- internal/dispatcher/sizer.go: the size that a ticket's own title and description imply.
pub mod Graded
use forge_wingman.Prelude.{
  ℕ, ◌+◌, ◌&&◌, ◌||◌, Bool, true, false, not, Option, none, some, List, [], ◌∷◌, ◌++◌, ltb, leb,
  ◌==◌, if◌then◌else◌, length, contains_func,
}
use forge_wingman.Text.{Text, codes}
use forge_wingman.Text.Split.{split}
use forge_wingman.Text.Decimal.{itoa}
use forge_wingman.Text.Escape.{join}
use forge_wingman.Text.Regex.{
  Regex, word_edge, text_start, line_start, text_end, one_of, many, is_digit, is_word, is_match,
  count_matches, all_of, any_of, maybe, some_of, folded, among, none_of,
}
use forge_wingman.Tickets.Signals.{
  Signal, single_layer_lane, ac_heading, md_heading, bold_line, amendment, ac_item, risk_signals,
  module_signals,
}

abbrev pub sized_by_signals : Text
sized_by_signals = codes "deterministic"

abbrev pub small_acs : ℕ
small_acs = 4

abbrev pub medium_acs : ℕ
medium_acs = 6

abbrev pub max_acs : ℕ
max_acs = 12

-- matching
unfoldable pub matching : List Signal → Text → List Text
unfolding is_match
matching [] text = []
matching (s ∷ ss) text =
    let rest = matching ss text in if is_match s.re text then s.name ∷ rest else rest

-- The hashes at the head of a line, after its blanks: 0 for one that is no markdown heading.
hashes : Text → ℕ
hashes [] = 0
hashes (c ∷ s) = let rest = hashes s in if c == b'#' then 1 + rest else 0

unfoldable pub level_of : Text → ℕ
unfolding hashes
level_of [] = 0
level_of (c ∷ s) = let rest = level_of s in if c == b' ' || c == b'\t' then rest else hashes (c ∷ s)

-- A line ends the section that a label of the level opened, 0 for a bold or a bare one.
unfoldable pub ends_section : ℕ → Text → Bool
unfolding is_match md_heading level_of bold_line amendment
ends_section level line =
    if is_match md_heading line
    then level == 0 || leb (level_of line) level
    else level == 0 && is_match bold_line line && not (is_match amendment line)

unfoldable pub section : ℕ → List Text → List Text
unfolding ends_section
section level [] = []
section level (line ∷ lines) =
    let rest = section level lines in if ends_section level line then [] else line ∷ rest

-- acceptanceCriteria
unfoldable pub criteria_of : List Text → Option Text
unfolding is_match ac_heading level_of section join
criteria_of [] = none
criteria_of (line ∷ lines) =
    let rest = criteria_of lines in
    if is_match ac_heading line
    then some (join (codes "\n") (section (level_of line) lines))
    else rest

-- The last switch of signalSize.
unfoldable pub graded : ℕ → ℕ → Text
graded n doubts =
    if leb n small_acs && doubts == 0
    then codes "S"
    else if leb n small_acs && doubts == 1 || leb n medium_acs && doubts == 0
    then codes "M"
    else codes "L"

abbrev pub one_if : Bool → ℕ
one_if true = 1
one_if false = 0

-- What argues for a larger size.
pub record Doubts : Type 0 where
  pub laneless : Bool
  pub risks : List Text
  pub modules : List Text

unfoldable pub doubts_of : Text → Text → Doubts
unfolding is_match single_layer_lane matching risk_signals module_signals
doubts_of title criteria = record {
  laneless = not (is_match single_layer_lane title);
  risks = matching risk_signals (title ++ codes "\n" ++ criteria);
  modules = matching module_signals criteria;
}

unfoldable pub count_doubts : Doubts → ℕ
count_doubts d = one_if d.laneless + length d.risks + one_if (leb 2 (length d.modules))

unfoldable pub reason_of : ℕ → Doubts → Text
unfolding itoa join
reason_of n d =
    itoa n
    ++ codes " acceptance criteria"
    ++ (if d.laneless then codes "; no single-layer title prefix" else [])
    ++ (if ltb 0 (length d.risks) then codes "; names " ++ join (codes ", ") d.risks else [])
    ++ (if leb 2 (length d.modules)
        then codes "; criteria name " ++ join (codes ", ") d.modules
        else [])

unfoldable pub size_by : Text → Option Text → Text × Text
unfolding count_matches ac_item itoa doubts_of count_doubts graded reason_of
size_by title none = (codes "L", codes "no acceptance criteria to count")
size_by title (some criteria) =
    let n = count_matches none ac_item criteria in
    let d = doubts_of title criteria in
    if n == 0
    then (codes "L", codes "no acceptance criteria to count")
    else if ltb max_acs n
    then (codes "XL", itoa n ++ codes " acceptance criteria, over " ++ itoa max_acs)
    else (graded n (count_doubts d), reason_of n d)

-- signalSize
unfoldable pub signal_size : Text → Text → Text × Text
unfolding size_by criteria_of split
signal_size title body = size_by title (criteria_of (split b'\n' body))
