-- ===== src/Json.antt =====
-- Python's `json`: the tokens of a text and the value they spell. Numbers with a fraction or an
-- exponent are kept as they are written.
pub mod Numbers
pub mod Spelling
use sahucodex.Prelude.{
  ℕ, zero, suc, ◌+◌, ◌-◌, ◌*◌, Bool, true, false, ◌&&◌, ◌||◌, List, [], ◌∷◌, ◌++◌, Option, none,
  some, ltb, leb, ◌==◌, if◌then◌else◌,
}
use sahucodex.Prelude.Int.{ℤ, pos, negsuc}
use sahucodex.Prelude.Texts.{Text, codes, eq_text}

pub data Mark : Type 0 where
  open_brace close_brace open_bracket close_bracket colon comma : Mark

-- A word is a run of other characters: a number, `null` and the like, or nonsense.
pub data Token : Type 0 where
  mark : Mark → Token
  quoted word : Text → Token
  bad : Token

pub data Kind : Type 0 where
  space quote letter : Kind
  marks : Mark → Kind

abbrev pub kind_of : ℕ → Kind
kind_of c =
    if c == 32 || c == 9 || c == 10 || c == 13
    then space
    else if c == 34
    then quote
    else if c == 123
    then marks open_brace
    else if c == 125
    then marks close_brace
    else if c == 91
    then marks open_bracket
    else if c == 93
    then marks close_bracket
    else if c == 58
    then marks colon
    else if c == 44
    then marks comma
    else letter

-- Within quotes: the end, an escape, a control character, or itself.
pub data QuotedKind : Type 0 where
  ends escapes breaks plain : QuotedKind

abbrev pub quoted_kind : ℕ → QuotedKind
quoted_kind c =
    if c == 34 then ends else if c == 92 then escapes else if ltb c 32 then breaks else plain

abbrev pub escape_of : ℕ → Option ℕ
escape_of c =
    if c == 34 || c == 92 || c == 47
    then some c
    else if c == 98
    then some 8
    else if c == 102
    then some 12
    else if c == 110
    then some 10
    else if c == 114
    then some 13
    else if c == 116
    then some 9
    else none

abbrev pub hex_digit : ℕ → Option ℕ
hex_digit c =
    if leb 48 c && leb c 57
    then some (c - 48)
    else if leb 97 c && leb c 102
    then some (c - 87)
    else if leb 65 c && leb c 70
    then some (c - 55)
    else none

pub data Scan : Type 0 where
  outside : Scan
  in_word in_quotes escaped : Text → Scan
  -- the value of the hexadecimal digits so far, and how many are to come after the next
  in_unicode : Text → ℕ → ℕ → Scan

abbrev pub next_digit : Text → ℕ → ℕ → Scan
next_digit text value more =
    if more == 0 then in_quotes (text ++ value ∷ []) else in_unicode text value (more - 1)

unfoldable pub tokens : Scan → Text → List Token
tokens outside [] = []
tokens (in_word text) [] = word text ∷ []
tokens _ [] = bad ∷ []
tokens outside (c ∷ s) = elim (kind_of c) [
  | space ↦ tokens outside s
  | quote ↦ tokens (in_quotes []) s
  | letter ↦ tokens (in_word (c ∷ [])) s
  | marks m ↦ mark m ∷ tokens outside s
]
tokens (in_word text) (c ∷ s) = elim (kind_of c) [
  | space ↦ word text ∷ tokens outside s
  | quote ↦ word text ∷ tokens (in_quotes []) s
  | letter ↦ tokens (in_word (text ++ c ∷ [])) s
  | marks m ↦ word text ∷ mark m ∷ tokens outside s
]
tokens (in_quotes text) (c ∷ s) = elim (quoted_kind c) [
  | ends ↦ quoted text ∷ tokens outside s
  | escapes ↦ tokens (escaped text) s
  | breaks ↦ bad ∷ []
  | plain ↦ tokens (in_quotes (text ++ c ∷ [])) s
]
tokens (escaped text) (c ∷ s) = elim (c == 117) [
  | true ↦ tokens (in_unicode text 0 3) s
  | false ↦ elim (escape_of c) [ none ↦ bad ∷ [] | some d ↦ tokens (in_quotes (text ++ d ∷ [])) s ]
]
tokens (in_unicode text value more) (c ∷ s) = elim (hex_digit c) [
  | none ↦ bad ∷ []
  | some d ↦ tokens (next_digit text (value * 16 + d) more) s
]

mutual
  pub data Json : Type 0 where
    null : Json
    boolean : Bool → Json
    integer : ℤ → Json
    float string : Text → Json
    array : Items → Json
    object : Members → Json

  -- The last item, and the last member, comes first.
  pub data Items : Type 0 where
    no_items : Items
    item : Json → Items → Items

  pub data Members : Type 0 where
    no_members : Members
    member : Text → Json → Members → Members

-- The grammar of numbers: at the start, after the sign, after a zero, in the integer, after the point,
-- in the fraction, after the `e`, after its sign, in the exponent.
pub data NumberState : Type 0 where
  begins signed zero_read whole point fraction exponent exponent_signed exponent_digits :
      NumberState

abbrev pub is_digit : ℕ → Bool
is_digit c = leb 48 c && leb c 57

abbrev pub after_whole : ℕ → Option NumberState
after_whole c = if c == 46 then some point else if c == 101 || c == 69 then some exponent else none

abbrev pub first_digit : ℕ → Option NumberState
first_digit c = if c == 48 then some zero_read else if is_digit c then some whole else none

abbrev pub number_step : NumberState → ℕ → Option NumberState
number_step begins c = if c == 45 then some signed else first_digit c
number_step signed c = first_digit c
number_step zero_read c = after_whole c
number_step whole c = if is_digit c then some whole else after_whole c
number_step point c = if is_digit c then some fraction else none
number_step fraction c =
    if is_digit c then some fraction else if c == 101 || c == 69 then some exponent else none
number_step exponent c =
    if is_digit c
    then some exponent_digits
    else if c == 43 || c == 45
    then some exponent_signed
    else none
number_step exponent_signed c = if is_digit c then some exponent_digits else none
number_step exponent_digits c = if is_digit c then some exponent_digits else none

abbrev pub number_state : NumberState → Text → Option NumberState
number_state state [] = some state
number_state state (c ∷ s) = elim (number_step state c) [
  | none ↦ none
  | some next ↦ number_state next s
]

abbrev pub digits_value : ℕ → Text → ℕ
digits_value n [] = n
digits_value n (c ∷ s) = digits_value (n * 10 + (c - 48)) s

abbrev pub minus : ℕ → ℤ
minus zero = pos 0
minus (suc n) = negsuc n

abbrev pub int_value : Text → ℤ
int_value [] = pos 0
int_value (c ∷ s) = if c == 45 then minus (digits_value 0 s) else pos (digits_value 0 (c ∷ s))

abbrev pub literal : Text → Option Json
literal w =
    if eq_text w (codes "null")
    then some null
    else if eq_text w (codes "true")
    then some (boolean true)
    else if eq_text w (codes "false")
    then some (boolean false)
    else if eq_text w (codes "NaN") || eq_text w (codes "Infinity") || eq_text w (codes "-Infinity")
    then some (float w)
    else none

unfoldable pub word_value : Text → Option Json
word_value w = elim (number_state begins w) [
  | some zero_read ↦ some (integer (int_value w))
  | some whole ↦ some (integer (int_value w))
  | some fraction ↦ some (float w)
  | some exponent_digits ↦ some (float w)
  | _ ↦ literal w
]

-- What is open around the place that is read.
pub data Frame : Type 0 where
  in_array : Items → Frame
  in_object : Members → Text → Frame

pub data State : Type 0 where
  wants_value starts_array starts_object : List Frame → State
  after_item : Items → List Frame → State
  after_member wants_key : Members → List Frame → State
  wants_colon : Members → Text → List Frame → State
  finished : Json → State

abbrev pub give : Json → List Frame → State
give v [] = finished v
give v (in_array items ∷ frames) = after_item (item v items) frames
give v (in_object members key ∷ frames) = after_member (member key v members) frames

unfoldable pub read_value : List Frame → Token → Option State
unfolding word_value
read_value frames (mark open_brace) = some (starts_object frames)
read_value frames (mark open_bracket) = some (starts_array frames)
read_value frames (quoted s) = some (give (string s) frames)
read_value frames (word w) = elim (word_value w) [ none ↦ none | some v ↦ some (give v frames) ]
read_value frames _ = none

unfoldable pub step : State → Token → Option State
unfolding read_value
step (wants_value frames) t = read_value frames t
step (starts_array frames) (mark close_bracket) = some (give (array no_items) frames)
step (starts_array frames) t = read_value (in_array no_items ∷ frames) t
step (starts_object frames) (mark close_brace) = some (give (object no_members) frames)
step (starts_object frames) (quoted key) = some (wants_colon no_members key frames)
step (after_item items frames) (mark comma) = some (wants_value (in_array items ∷ frames))
step (after_item items frames) (mark close_bracket) = some (give (array items) frames)
step (after_member members frames) (mark comma) = some (wants_key members frames)
step (after_member members frames) (mark close_brace) = some (give (object members) frames)
step (wants_key members frames) (quoted key) = some (wants_colon members key frames)
step (wants_colon members key frames) (mark colon) =
    some (wants_value (in_object members key ∷ frames))
step _ _ = none

unfoldable pub read : State → List Token → Option Json
unfolding step
read (finished v) [] = some v
read _ [] = none
read state (t ∷ ts) = elim (step state t) [ none ↦ none | some next ↦ read next ts ]

unfoldable pub loads : Text → Option Json
unfolding tokens read
loads text = read (wants_value []) (tokens outside text)

-- `value[key]` of a dict: the member that was read last.
abbrev pub get_member : Members → Text → Option Json
get_member no_members key = none
get_member (member k v members) key = if eq_text k key then some v else get_member members key
