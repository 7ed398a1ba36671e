-- ===== src/Completion/Json.antt =====
-- `extract_json_object` of src/orchestrator/helpers.rs: the JSON object in the output of a model.
use cli_agent.Common.{
  ℕ, zero, suc, String, Bool, true, false, not, ◌&&◌, Option, none, some, List, [], ◌∷◌,
  if◌then◌else◌, ◌==◌, nat_eq,
}
use Prim.Native.String
use Prim.Native.Char.{code}
use cli_agent.Common.Texts.{trim, find, starts_with}

-- What stands between a fence and the next one, where that starts with a brace.
unfoldable pub fenced : String → String → Option String
unfolding find trim
fenced fence text = elim (find fence text) [
  | none ↦ none
  | some (before, after) ↦ elim (find "```" after) [
    | none ↦ none
    | some (inside, rest) ↦ if starts_with "{" (trim inside) then some (trim inside) else none
  ]
]

-- The loop over the fences.
unfoldable pub first_fenced : List String → String → Option String
unfolding fenced
first_fenced [] text = none
first_fenced (fence ∷ rest) text = elim (fenced fence text) [
  | some candidate ↦ some candidate
  | none ↦ first_fenced rest text
]

abbrev extend : String → Option String → Option String
extend c none = none
extend c (some s) = some (String.◌++◌ c s)

-- The loop over the characters: how deep the braces are, and whether a string or an escape is open.
-- The four marks are ASCII and occur in no other character of UTF-8, so bytes and characters agree.
-- The depth is an `i32` and starts at a brace, so it is at least one until the end.
unfoldable pub scan : ℕ → Bool → Bool → String → Option String
scan depth in_string escape_next String.[] = none
scan depth in_string escape_next (String.◌∷◌ c s) =
    let here = String.◌∷◌ c "" in
    let skipped = extend here (scan depth in_string false s) in
    let escaping = extend here (scan depth in_string true s) in
    let toggled = extend here (scan depth (not in_string) false s) in
    let opened = extend here (scan (suc depth) in_string false s) in
    let closed : Option String = elim depth [
      | zero ↦ none
      | suc zero ↦ some here
      | suc (suc below) ↦ extend here (scan (suc below) in_string false s)
    ] in
    if escape_next
    then skipped
    else if code c == 92 && in_string
    then escaping
    else if code c == 34
    then toggled
    else if code c == 123 && not in_string
    then opened
    else if code c == 125 && not in_string
    then closed
    else skipped

unfoldable pub extract_json_object : String → Option String
unfolding first_fenced find scan
extract_json_object text =
    elim (first_fenced ("```json\n" ∷ "```\n" ∷ "```json " ∷ "```" ∷ []) text) [
      | some candidate ↦ some candidate
      | none ↦ elim (find "{" text) [
        | none ↦ none
        | some (before, after) ↦ scan 0 false false (String.◌++◌ "{" after)
      ]
    ]
