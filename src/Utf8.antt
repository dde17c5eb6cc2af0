-- ===== src/Utf8.antt =====
-- `bytes.decode("utf-8", …)` of Python: bytes to code points, with the errors that it finds.
use sahucodex.Prelude.{
  ℕ, zero, suc, ◌+◌, ◌-◌, ◌*◌, ◌/◌, ◌%◌, ◌++◌, ◌<◌, ◌≡◌, refl, Bool, true, false, ◌&&◌, List, [],
  ◌∷◌, map, Option, none, some, ltb, leb, ◌==◌, lt→ltb, if◌then◌else◌, All,
}
use sahucodex.Prelude.Texts.{Text}

-- What the first byte of a sequence says: a character, a mistake, or so many more bytes, of which the
-- first is within two bounds.
pub data Lead : Type 0 where
  ascii broken : Lead
  opens : (more value low high : ℕ) → Lead

abbrev pub between : ℕ → ℕ → ℕ → Bool
between low high b = leb low b && leb b high

-- `surrogates` is the error handler "surrogatepass".
abbrev pub lead : Bool → ℕ → Lead
lead surrogates b =
    if ltb b 128
    then ascii
    else if between 194 223 b
    then opens 1 (b - 192) 128 191
    else if b == 224
    then opens 2 0 160 191
    else if b == 237
    then opens 2 13 128 (if surrogates then 191 else 159)
    else if between 225 239 b
    then opens 2 (b - 224) 128 191
    else if b == 240
    then opens 3 0 144 191
    else if between 241 243 b
    then opens 3 (b - 240) 128 191
    else if b == 244
    then opens 3 4 128 143
    else broken

pub data Reading : Type 0 where
  start : Reading
  inside : (more value low high : ℕ) → Reading

-- `none` stands for a maximal sequence that is not a character. `more` counts the bytes after the next.
unfoldable decoded : Bool → Reading → List ℕ → List (Option ℕ)
decoded surrogates start [] = []
decoded surrogates (inside more value low high) [] = none ∷ []
decoded surrogates start (b ∷ bs) = elim (lead surrogates b) [
  | ascii ↦ some b ∷ decoded surrogates start bs
  | broken ↦ none ∷ decoded surrogates start bs
  | opens more value low high ↦ decoded surrogates (inside (more - 1) value low high) bs
]
decoded surrogates (inside more value low high) (b ∷ bs) = elim (between low high b) [
  | true ↦ elim more [
    | zero ↦ some (value * 64 + (b - 128)) ∷ decoded surrogates start bs
    | suc fewer ↦ decoded surrogates (inside fewer (value * 64 + (b - 128)) 128 191) bs
  ]
  | false ↦ none ∷ (elim (lead surrogates b) [
    | ascii ↦ some b ∷ decoded surrogates start bs
    | broken ↦ none ∷ decoded surrogates start bs
    | opens more' value' low' high' ↦ decoded surrogates (inside (more' - 1) value' low' high') bs
  ])
]

-- U+FFFD in place of a mistake.
abbrev pub or_replacement : Option ℕ → ℕ
or_replacement none = 65533
or_replacement (some c) = c

-- `raw.decode("utf-8", "replace")`
unfoldable pub decode_replace : List ℕ → Text
unfolding decoded
decode_replace bytes = map or_replacement (decoded false start bytes)

abbrev pub all_read : List (Option ℕ) → Option Text
all_read [] = some []
all_read (none ∷ cs) = none
all_read (some c ∷ cs) = elim (all_read cs) [ none ↦ none | some text ↦ some (c ∷ text) ]

-- `raw.decode("utf-8", "surrogatepass")`, which raises where there is a mistake.
unfoldable pub decode_surrogatepass : List ℕ → Option Text
unfolding decoded
decode_surrogatepass bytes = all_read (decoded true start bytes)

abbrev pub IsAscii : List ℕ → Type 0
IsAscii bytes = All (λ b. b < 128) bytes

lead_ascii : (surrogates : Bool) (b : ℕ) → b < 128 → lead surrogates b ≡ ascii
lead_ascii surrogates b small = rw (lt→ltb b 128 small, lead) refl

decoded_ascii :
    (surrogates : Bool) (bytes : List ℕ)
    → IsAscii bytes
    → all_read (decoded surrogates start bytes) ≡ some bytes
unfolding decoded
decoded_ascii surrogates [] h = refl
decoded_ascii surrogates (b ∷ bs) (small, h) =
    rw (lead_ascii surrogates b small, decoded) (rw (decoded_ascii surrogates bs h, all_read) refl)

pub decode_surrogatepass_ascii :
    (bytes : List ℕ) → IsAscii bytes → decode_surrogatepass bytes ≡ some bytes
unfolding decode_surrogatepass
decode_surrogatepass_ascii bytes h = decoded_ascii true bytes h

-- `text.encode("utf-8")`; a surrogate, at which Python raises, is not meant to occur.
abbrev pub encode_char : ℕ → List ℕ
encode_char c =
    if ltb c 128
    then c ∷ []
    else if ltb c 2048
    then (192 + c / 64) ∷ (128 + c % 64) ∷ []
    else if ltb c 65536
    then (224 + c / 4096) ∷ (128 + c / 64 % 64) ∷ (128 + c % 64) ∷ []
    else (240 + c / 262144) ∷ (128 + c / 4096 % 64) ∷ (128 + c / 64 % 64) ∷ (128 + c % 64) ∷ []

unfoldable pub encode : Text → List ℕ
encode [] = []
encode (c ∷ text) = encode_char c ++ encode text
