-- ===== src/Text/Escape.antt =====
-- url.PathEscape on ASCII, strings.Join, and the decimal text of a Unix time.
use forge_wingman.Prelude.{
  ℕ, ◌+◌, ◌-◌, ◌/◌, ◌%◌, Bool, ◌&&◌, ◌||◌, List, [], ◌∷◌, ◌++◌, leb, ltb, ◌==◌, if◌then◌else◌,
  contains_func,
}
use forge_wingman.Text.{Text, codes}
use forge_wingman.Text.Decimal.{itoa}
use forge_wingman.Time.{Time, second}

in_range : ℕ → ℕ → ℕ → Bool
in_range lo hi c = leb lo c && leb c hi

-- What a path segment may hold unescaped.
is_plain : ℕ → Bool
unfolding in_range
is_plain c =
    in_range b'a' b'z' c
    || in_range b'A' b'Z' c
    || in_range b'0' b'9' c
    || contains_func (λ d. c == d) (codes "-_.~$&+:=@")

unfoldable pub hex_digit : ℕ → ℕ
hex_digit n = if ltb n 10 then b'0' + n else b'A' + (n - 10)

unfoldable pub path_escape : Text → Text
unfolding is_plain hex_digit
path_escape [] = []
path_escape (c ∷ s) =
    let rest = path_escape s in
    if is_plain c then c ∷ rest else b'%' ∷ hex_digit (c / 16) ∷ hex_digit (c % 16) ∷ rest

unfoldable pub join : Text → List Text → Text
join sep [] = []
join sep (s ∷ []) = s
join sep (s ∷ t ∷ ts) = s ++ sep ++ join sep (t ∷ ts)

-- The zero time is so many seconds before the Unix epoch.
abbrev unix_epoch : ℕ
unix_epoch = 62135596800

-- strconv.FormatInt(t.Unix(), 10)
unfoldable pub unix_text : Time → Text
unfolding itoa
unix_text t =
    if ltb (t / second) unix_epoch
    then b'-' ∷ itoa (unix_epoch - t / second)
    else itoa (t / second - unix_epoch)
