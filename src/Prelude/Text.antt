-- ===== src/Prelude/Text.antt =====
-- Texts as the program uses them: `to_lowercase`, `split`, `trim` and others.
pub mod Laws
pub mod Trim
use Prim.Native.Nat.{ℕ, zero, suc, pred, ◌+◌, compare, Ordering}
use Prim.Native.Char.{Char, code}
use Prim.Native.String
use Prim.Native.String.{String, [], ◌∷◌}
use mathlib.Core.Bool.{Bool, true, false, ◌&&◌, ◌||◌}
use mathlib.Core.Option.{Option, none, some}
use mathlib.Core.List.{List}
use affinidi_trust_registry.Prelude.Equality.{if◌then◌else◌}

abbrev pub leb : ℕ → ℕ → Bool
leb a b = elim (compare a b) [ Ordering.gt ↦ false | _ ↦ true ]

abbrev pub nat_eq : ℕ → ℕ → Bool
nat_eq a b = elim (compare a b) [ Ordering.eq ↦ true | _ ↦ false ]

abbrev lower : ℕ → ℕ
lower c = if leb b'A' c && leb c b'Z' then c + 32 else c

-- The code points of `s.to_lowercase()`, for ASCII. The program compares the result only with
-- fixed ASCII words that hold no `k`; no other character has a lower case in such a word, so a
-- character outside ASCII may stay as it is.
unfoldable pub to_lowercase : String → List ℕ
to_lowercase [] = List.[]
to_lowercase (c ∷ s) = List.◌∷◌ (lower (code c)) (to_lowercase s)

abbrev same_codes : List ℕ → String → Bool
same_codes List.[] [] = true
same_codes (List.◌∷◌ n ns) (c ∷ s) = nat_eq n (code c) && same_codes ns s
same_codes _ _ = false

-- `s.to_lowercase() == word`
unfoldable pub lowercase_is : String → String → Bool
unfolding to_lowercase
lowercase_is s word = same_codes (to_lowercase s) word

abbrev push : String → Char → String
push s c = String.◌++◌ s (c ∷ [])

-- The pieces of a text between separators, `current` being the piece that is being read.
unfoldable pub split_from : ℕ → String → String → List String
split_from separator current [] = List.◌∷◌ current List.[]
split_from separator current (c ∷ s) =
    let closed = List.◌∷◌ current (split_from separator "" s) in
    let longer = split_from separator (push current c) s in
    if nat_eq (code c) separator then closed else longer

-- `s.split(c)`: never empty, and the text "" has the one piece "".
unfoldable pub split : ℕ → String → List String
unfolding split_from
split separator s = split_from separator "" s

abbrev after_first : Char → Option (String × String) → Option (String × String)
after_first c none = none
after_first c (some (key, value)) = some (c ∷ key, value)

-- `s.split_once(c)`: at the first separator
unfoldable pub split_once : ℕ → String → Option (String × String)
split_once separator [] = none
split_once separator (c ∷ s) =
    let later = split_once separator s in
    if nat_eq (code c) separator then some ([], s) else after_first c later

-- `char::is_whitespace`: the code points with the property White_Space
abbrev is_whitespace : ℕ → Bool
is_whitespace c =
    nat_eq c 32
    || (leb 9 c && leb c 13)
    || nat_eq c 133
    || nat_eq c 160
    || nat_eq c 5760
    || (leb 8192 c && leb c 8202)
    || nat_eq c 8232
    || nat_eq c 8233
    || nat_eq c 8239
    || nat_eq c 8287
    || nat_eq c 12288

unfoldable pub trim_start : String → String
trim_start [] = []
trim_start (c ∷ s) = let rest = trim_start s in if is_whitespace (code c) then rest else c ∷ s

unfoldable pub trim_end : String → String
trim_end [] = []
trim_end (c ∷ s) = elim (trim_end s) [
  | [] ↦ if is_whitespace (code c) then [] else c ∷ []
  | ◌∷◌ d t ↦ c ∷ d ∷ t
]

unfoldable pub trim : String → String
unfolding trim_start trim_end
trim s = trim_end (trim_start s)

abbrev starts_with : String → String → Bool
starts_with [] s = true
starts_with (c ∷ word) [] = false
starts_with (c ∷ word) (d ∷ s) = nat_eq (code c) (code d) && starts_with word s

-- `s.contains(word)`
unfoldable pub contains_text : String → String → Bool
contains_text word [] = starts_with word []
contains_text word (d ∷ s) = starts_with word (d ∷ s) || contains_text word s

-- `s.strip_prefix(word)`
unfoldable pub strip_prefix : String → String → Option String
strip_prefix [] s = some s
strip_prefix (c ∷ word) [] = none
strip_prefix (c ∷ word) (d ∷ s) =
    let rest = strip_prefix word s in if nat_eq (code c) (code d) then rest else none

-- The text with each occurrence of `old` replaced, from left to right and without overlap, the next
-- `skip` characters being those of an occurrence that was replaced.
abbrev replace_from : (skip : ℕ) → (old new : String) → String → String
replace_from skip old new [] = []
replace_from zero old new (c ∷ s) =
    let skipped = replace_from (pred (Prim.Native.String.count old)) old new s in
    let kept = replace_from zero old new s in
    if starts_with old (c ∷ s) then String.◌++◌ new skipped else c ∷ kept
replace_from (suc n) old new (c ∷ s) = replace_from n old new s

-- `s.replace(old, new)`, for an `old` that is not empty
unfoldable pub replace : (old new : String) → String → String
replace old new s = replace_from zero old new s
