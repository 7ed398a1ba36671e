-- ===== src/Common/Texts.antt =====
-- The functions of `str` that the program uses, on texts as sequences of characters.
use Prim.Native.Nat.{ℕ, zero, suc, ◌+◌}
use Prim.Native.String
use Prim.Native.String.{String}
use Prim.Native.Char.{Char, code}
use mathlib.Core.Bool.{Bool, true, false, ◌&&◌, ◌||◌}
use mathlib.Core.Option.{Option, none, some}
use mathlib.Core.List.{List, [], ◌∷◌}
use cli_agent.Common.Tests.{leb, if◌then◌else◌}
use cli_agent.Common.Equality.{◌==◌, nat_eq}
use cli_agent.Common.Bytes.{as_bytes, read_number}

-- `char::is_whitespace`, the property White_Space of Unicode.
unfoldable pub is_whitespace : ℕ → Bool
is_whitespace c =
    leb 9 c && leb c 13
    || c == 32
    || c == 133
    || c == 160
    || c == 5760
    || leb 8192 c && leb c 8202
    || c == 8232
    || c == 8233
    || c == 8239
    || c == 8287
    || c == 12288

abbrev pub is_empty : String → Bool
is_empty String.[] = true
is_empty (String.◌∷◌ c s) = false

unfoldable pub trim_start : String → String
trim_start String.[] = ""
trim_start (String.◌∷◌ c s) =
    let rest = trim_start s in if is_whitespace (code c) then rest else String.◌∷◌ c s

unfoldable pub trim_end : String → String
trim_end String.[] = ""
trim_end (String.◌∷◌ c s) =
    let rest = trim_end s in
    if is_whitespace (code c) && is_empty rest then "" else String.◌∷◌ c rest

unfoldable pub trim : String → String
unfolding trim_start trim_end is_whitespace
trim s = trim_end (trim_start s)

-- What follows a prefix, where the text has it.
unfoldable pub strip_prefix : String → String → Option String
strip_prefix String.[] s = some s
strip_prefix (String.◌∷◌ p ps) String.[] = none
strip_prefix (String.◌∷◌ p ps) (String.◌∷◌ c s) =
    let rest = strip_prefix ps s in if code p == code c then rest else none

abbrev pub holds {ℓ} : {A : Type ℓ} → Option A → Bool
holds none = false
holds (some a) = true

abbrev pub starts_with : String → String → Bool
starts_with prefix s = holds (strip_prefix prefix s)

abbrev pub before_found : Char → Option (String × String) → Option (String × String)
before_found c none = none
before_found c (some (before, after)) = some (String.◌∷◌ c before, after)

-- The texts before and behind the first occurrence.
unfoldable pub find : String → String → Option (String × String)
unfolding strip_prefix
find needle String.[] = elim (strip_prefix needle "") [ none ↦ none | some rest ↦ some ("", rest) ]
find needle (String.◌∷◌ c s) =
    let later = before_found c (find needle s) in
    elim (strip_prefix needle (String.◌∷◌ c s)) [ none ↦ later | some rest ↦ some ("", rest) ]

unfoldable pub contains_text : String → String → Bool
unfolding find
contains_text needle s = holds (find needle s)

-- `chars().take(n).collect()`
unfoldable pub take_chars : ℕ → String → String
take_chars zero s = ""
take_chars (suc n) String.[] = ""
take_chars (suc n) (String.◌∷◌ c s) = String.◌∷◌ c (take_chars n s)

-- `split_whitespace().count()`; the flag says that a word is being read.
unfoldable pub count_words : Bool → String → ℕ
count_words in_word String.[] = 0
count_words in_word (String.◌∷◌ c s) =
    let outside = count_words false s in
    let inside = count_words true s in
    if is_whitespace (code c) then outside else if in_word then inside else suc inside

-- `rsplit(separator).next()`: what stands behind the last separator, or the whole text.
unfoldable pub after_last : Char → String → String
after_last separator String.[] = ""
after_last separator (String.◌∷◌ c s) =
    let rest = after_last separator s in
    if contains_text (String.◌∷◌ separator "") s
    then rest
    else if code c == code separator
    then s
    else String.◌∷◌ c rest

-- `str::parse::<u8>`
unfoldable pub parse_u8 : String → Option ℕ
unfolding as_bytes
parse_u8 s =
    in_range
      (elim (as_bytes s) [ [] ↦ none | b ∷ bs ↦ read_number (if b == 43 then bs else b ∷ bs) ])
  where
    in_range : Option ℕ → Option ℕ
    in_range none = none
    in_range (some n) = if leb n 255 then some n else none

infixr 65 ◌<>◌
abbrev pub ◌<>◌ : String → String → String
s <> t = String.◌++◌ s t

-- `chars().count()`
unfoldable pub count_chars : String → ℕ
count_chars String.[] = 0
count_chars (String.◌∷◌ c s) = suc (count_chars s)

-- `chars().skip(n).collect()`
unfoldable pub drop_chars : ℕ → String → String
drop_chars zero s = s
drop_chars (suc n) String.[] = ""
drop_chars (suc n) (String.◌∷◌ c s) = drop_chars n s

-- `[String]::join`
unfoldable pub join : String → List String → String
join separator [] = ""
join separator (s ∷ []) = s
join separator (s ∷ t ∷ rest) = s <> separator <> join separator (t ∷ rest)

-- `eq_ignore_ascii_case` of a prefix: what follows it.
abbrev pub to_ascii_lowercase : ℕ → ℕ
to_ascii_lowercase b = if leb 65 b && leb b 90 then b + 32 else b

unfoldable pub strip_ignoring_case : List ℕ → List ℕ → Option (List ℕ)
strip_ignoring_case [] bytes = some bytes
strip_ignoring_case (n ∷ needle) [] = none
strip_ignoring_case (n ∷ needle) (b ∷ bytes) =
    let rest = strip_ignoring_case needle bytes in
    if to_ascii_lowercase n == to_ascii_lowercase b then rest else none
