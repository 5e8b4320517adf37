-- ===== src/Runner/Ticket.antt =====
-- internal/runner/ticket.go: the ticket that is handed to the build agent, and the bounds it is held to.
use forge_wingman.Prelude.{
  ℕ, ◌+◌, ◌*◌, ◌/◌, ◌%◌, ◌^◌, Bool, true, false, not, ◌&&◌, ◌||◌, Option, none, some, List, [], ◌∷◌,
  ◌++◌, ltb, leb, ◌==◌, if◌then◌else◌, length, contains_func, map,
}
use forge_wingman.Text.{Text, codes, contains, is_empty}
use forge_wingman.Text.Escape.{join, hex_digit}
use forge_wingman.Text.Regex.{is_digit, is_letter}
use forge_wingman.Store.Decisions.{is_blank}
use forge_wingman.Store.Retry.{valid_note}

pub record Answer : Type 0 where
  pub question : Text
  pub choice : Text

pub record Ticket : Type 0 where
  pub id : Text
  pub title : Text
  pub size : Text
  pub sized_by : Text
  pub body : Text
  pub plan_files : List Text
  pub decisions : List Answer
  pub front_end : Bool
  pub note : Text

-- The bounds that a ticket may break, in the order they are read.
pub data TicketFault : Type 0 where
  id_unsafe title_unusable size_unknown sized_by_unusable body_unusable answer_unusable
        note_unusable too_long :
      TicketFault

abbrev pub is_alphanumeric : ℕ → Bool
is_alphanumeric c = is_letter c || is_digit c

-- The rest of an id after a word character, or after a hyphen or nothing.
unfoldable pub id_rest : Bool → Text → Bool
id_rest in_word [] = in_word
id_rest in_word (c ∷ s) =
    let next = id_rest true s in
    let parted = id_rest false s in
    if is_alphanumeric c then next else if in_word && c == b'-' then parted else false

-- ticketIDPattern
unfoldable pub is_ticket_id : Text → Bool
unfolding id_rest
is_ticket_id s = id_rest false s

-- printable: unicode.IsPrint on ASCII
unfoldable pub printable : Text → Bool
printable s = not (contains_func (λ c. not (leb 32 c && leb c 126)) s)

unfoldable pub is_line_within : ℕ → Text → Bool
unfolding is_blank printable
is_line_within limit s = not (is_blank s) && leb (length s) limit && printable s

-- checkAnswer: a question and a choice of one printable line within their limits
unfoldable pub answer_fits : Answer → Bool
unfolding is_line_within
answer_fits a = is_line_within 300 a.question && is_line_within 120 a.choice

-- A character as the JSON encoder writes it within a string.
json_code : ℕ → Text
unfolding hex_digit
json_code c =
    if c == b'"' || c == b'\\'
    then b'\\' ∷ c ∷ []
    else if c == 8
    then codes "\\b"
    else if c == 12
    then codes "\\f"
    else if c == b'\n'
    then codes "\\n"
    else if c == b'\r'
    then codes "\\r"
    else if c == b'\t'
    then codes "\\t"
    else if ltb c 32
    then codes "\\u00" ++ hex_digit (c / 16) ∷ lower_hex (c % 16) ∷ []
    else c ∷ []
  where
    lower_hex : ℕ → ℕ
    lower_hex n = if ltb n 10 then b'0' + n else 87 + n

json_codes : Text → Text
unfolding json_code
json_codes [] = []
json_codes (c ∷ s) = json_code c ++ json_codes s

json_text : Text → Text
unfolding json_codes
json_text s = codes "\"" ++ json_codes s ++ codes "\""

field : Text → Text → Text
unfolding json_text
field name value = json_text name ++ codes ":" ++ value

answer_json : Answer → Text
unfolding field json_text
answer_json a =
    codes "{"
    ++ field (codes "question") (json_text a.question)
    ++ codes ","
    ++ field (codes "choice") (json_text a.choice)
    ++ codes "}"

json_array : List Text → Text
unfolding join
json_array vs = codes "[" ++ join (codes ",") vs ++ codes "]"

-- A field that is left out where it is empty.
optional : Bool → Text → Text → List Text
unfolding field
optional true name value = []
optional false name value = field name value ∷ []

abbrev no_elements {ℓ} : {A : Type ℓ} → List A → Bool
no_elements [] = true
no_elements (x ∷ xs) = false

-- Encode
unfoldable pub encode : Ticket → Text
unfolding join field optional json_text json_array answer_json
encode t =
    codes "{"
    ++ join (codes ",") (
        field (codes "id") (json_text t.id)
          ∷ field (codes "title") (json_text t.title)
          ∷ field (codes "size") (json_text t.size)
          ∷ optional (is_empty t.sized_by) (codes "sized_by") (json_text t.sized_by)
        ++ field (codes "body") (json_text t.body)
          ∷ optional (no_elements t.plan_files) (codes "plan_files")
              (json_array (map json_text t.plan_files))
        ++ optional (no_elements t.decisions) (codes "decisions")
            (json_array (map answer_json t.decisions))
        ++ optional (not t.front_end) (codes "front_end") (codes "true")
        ++ optional (is_empty t.note) (codes "note") (json_text t.note))
    ++ codes "}"

abbrev pub ticket_sizes : List Text
ticket_sizes = codes "S" ∷ codes "M" ∷ codes "L" ∷ []

-- Validate, for ASCII texts, which are valid UTF-8
unfoldable pub validate : Ticket → Option TicketFault
unfolding is_ticket_id is_line_within contains printable is_blank answer_fits valid_note encode
validate t =
    if not (leb (length t.id) 64) || not (is_ticket_id t.id)
    then some id_unsafe
    else if not (is_line_within 256 t.title)
    then some title_unusable
    else if not (contains ticket_sizes t.size)
    then some size_unknown
    else if not (leb (length t.sized_by) 64) || not (printable t.sized_by)
    then some sized_by_unusable
    else if is_blank t.body || not (leb (length t.body) (32 * 2 ^ 10))
    then some body_unusable
    else if contains_func (λ a. not (answer_fits a)) t.decisions
    then some answer_unusable
    else if not (valid_note t.note)
    then some note_unusable
    else if not (leb (length (encode t)) (96 * 2 ^ 10))
    then some too_long
    else none
