-- ===== src/Prelude/Text/Trim.antt =====
-- Trimming a text, and splitting it at its first separator.
use Prim.Native.Char.{Char, code}
use Prim.Native.String.{String, [], ◌∷◌, ◌++◌}
use mathlib.Core.Path.{◌≡◌, refl, sym, ap, ◌∙◌}
use mathlib.Core.Bool.{Bool, true, false, not}
use mathlib.Core.Option.{Option, none, some}
use mathlib.Core.Logic.{inl, inr}
use affinidi_trust_registry.Prelude.Lists.{All}
use native.Mathlib.Omega.{arith}
use text.Mathlib.TextLemmas.{nil-append, cons-append}
use affinidi_trust_registry.Prelude.Equality.{if◌then◌else◌, Bool-cases}
use Prim.Native.Nat.{ℕ}
use affinidi_trust_registry.Prelude.Text.{
  nat_eq, is_whitespace, trim_start, trim_end, trim, push, split, split_from, split_once,
  after_first,
}
use affinidi_trust_registry.Prelude.Text.Laws.{lacks}

lacks-trim_start : (n : ℕ) (s : String) → lacks n s ≡ true → lacks n (trim_start s) ≡ true
unfolding lacks trim_start
lacks-trim_start n [] h = refl
lacks-trim_start n (c ∷ s) h = ground (arith, lacks-trim_start n s)

-- A character before a text that was trimmed at its end
abbrev closing : Char → String → String
closing c [] = if is_whitespace (code c) then [] else c ∷ []
closing c (d ∷ t) = c ∷ d ∷ t

trim_end-cons : (c : Char) (s : String) → trim_end (c ∷ s) ≡ closing c (trim_end s)
unfolding trim_end
trim_end-cons c s = refl

lacks-closing :
    (n : ℕ) (c : Char) (t : String) → lacks n (c ∷ t) ≡ true → lacks n (closing c t) ≡ true
unfolding lacks
lacks-closing n c [] h = elim (Bool-cases (is_whitespace (code c))) [
  | inl space ↦ rw space refl
  | inr black ↦ rw black h
]
lacks-closing n c (d ∷ t) h = h

lacks-trim_end : (n : ℕ) (s : String) → lacks n s ≡ true → lacks n (trim_end s) ≡ true
unfolding lacks trim_end
lacks-trim_end n [] h = refl
lacks-trim_end n (c ∷ s) h = lacks-closing n c (trim_end s) (ground (arith, lacks-trim_end n s))

pub lacks-trim : (n : ℕ) (s : String) → lacks n s ≡ true → lacks n (trim s) ≡ true
unfolding trim
lacks-trim n s h = lacks-trim_end n (trim_start s) (lacks-trim_start n s h)

trim_end-closing : (c : Char) (t : String) → trim_end t ≡ t → trim_end (closing c t) ≡ closing c t
unfolding trim_end
trim_end-closing c [] h = elim (Bool-cases (is_whitespace (code c))) [
  | inl space ↦ rw space refl
  | inr black ↦ rw (black, black) refl
]
trim_end-closing c (d ∷ t) h = trim_end-cons c (d ∷ t) ∙ ap (closing c) h

trim_end-trim_end : (s : String) → trim_end (trim_end s) ≡ trim_end s
unfolding trim_end
trim_end-trim_end [] = refl
trim_end-trim_end (c ∷ s) = trim_end-closing c (trim_end s) (trim_end-trim_end s)

-- The text does not start with white space.
abbrev starts_black : String → Bool
starts_black [] = true
starts_black (c ∷ s) = not (is_whitespace (code c))

trim_start-black : (s : String) → starts_black (trim_start s) ≡ true
unfolding trim_start
trim_start-black [] = refl
trim_start-black (c ∷ s) = elim (Bool-cases (is_whitespace (code c))) [
  | inl space ↦ rw space (trim_start-black s)
  | inr black ↦ rw (black, black) refl
]

black-trim_start : (s : String) → starts_black s ≡ true → trim_start s ≡ s
unfolding trim_start
black-trim_start [] h = refl
black-trim_start (c ∷ s) h = ground arith

black-closing :
    (c : Char) (t : String)
    → not (is_whitespace (code c)) ≡ true
    → starts_black (closing c t) ≡ true
black-closing c [] h = ground arith
black-closing c (d ∷ t) h = h

black-trim_end : (s : String) → starts_black s ≡ true → starts_black (trim_end s) ≡ true
unfolding trim_end
black-trim_end [] h = refl
black-trim_end (c ∷ s) h = black-closing c (trim_end s) h

pub trim-trim : (s : String) → trim (trim s) ≡ trim s
unfolding trim
trim-trim s =
    ap trim_end (
      black-trim_start (trim_end (trim_start s))
        (black-trim_end (trim_start s) (trim_start-black s)))
    ∙ trim_end-trim_end (trim_start s)

-- A trimmed text is trimmed at its end.
pub trim_end-trimmed : (s : String) → trim s ≡ s → trim_end s ≡ s
unfolding trim
trim_end-trimmed s h = ap trim_end (sym h) ∙ trim_end-trim_end (trim_start s) ∙ h

closing-append :
    (d : Char) (s : String) (c : Char) (t : String) → closing d (s ++ c ∷ t) ≡ d ∷ (s ++ c ∷ t)
closing-append d [] c t = rw (nil-append (c ∷ t)) refl
closing-append d (e ∷ s) c t = rw (cons-append e s (c ∷ t)) refl

-- What ends with a text that is not empty and trimmed at its end is itself trimmed there.
pub trim_end-append :
    (s : String) (c : Char) (t : String)
    → trim_end (c ∷ t) ≡ c ∷ t
    → trim_end (s ++ c ∷ t) ≡ s ++ c ∷ t
trim_end-append [] c t h = rw (nil-append (c ∷ t)) h
trim_end-append (d ∷ s) c t h = rw (cons-append d s (c ∷ t)) (
    trim_end-cons d (s ++ c ∷ t)
    ∙ ap (closing d) (trim_end-append s c t h)
    ∙ closing-append d s c t)

pub split_once-append :
    (n : ℕ) (s : String) (c : Char) (t : String)
    → lacks n s ≡ true
    → code c ≡ n
    → split_once n (s ++ c ∷ t) ≡ some (s, t)
unfolding split_once lacks
split_once-append n [] c t h e = rw (nil-append (c ∷ t)) (ground arith)
split_once-append n (d ∷ s) c t h e =
    rw (cons-append d s (c ∷ t)) (ground (arith, split_once-append n s c t))

-- What stands before the first separator holds none, and both parts lack what the text lacks.
abbrev pub Parts : ℕ → ℕ → String → Option (String × String) → Type 0
Parts n m s none = Unit
Parts n m s (some (key, value)) =
    (lacks n key ≡ true) × (lacks m s ≡ true → (lacks m key ≡ true) × (lacks m value ≡ true))

Parts-after_first :
    (n m : ℕ) (c : Char) (s : String) (parts : Option (String × String))
    → nat_eq (code c) n ≡ false
    → Parts n m s parts
    → Parts n m (c ∷ s) (after_first c parts)
unfolding lacks
Parts-after_first n m c s none e h = tt
Parts-after_first n m c s (some (key, value)) e h = (ground arith, λ l. ground arith)

pub split_once-Parts : (n m : ℕ) (s : String) → Parts n m s (split_once n s)
unfolding split_once lacks
split_once-Parts n m [] = tt
split_once-Parts n m (c ∷ s) = elim (Bool-cases (nat_eq (code c) n)) [
  | inl here ↦ rw here (refl, λ h. ground arith)
  | inr later ↦ rw later (Parts-after_first n m c s (split_once n s) later (split_once-Parts n m s))
]

pub lacks-append :
    (n : ℕ) (s t : String) → lacks n s ≡ true → lacks n t ≡ true → lacks n (s ++ t) ≡ true
unfolding lacks
lacks-append n [] t h k = rw (nil-append t) k
lacks-append n (c ∷ s) t h k = rw (cons-append c s t) (ground (arith, lacks-append n s t))

-- A character that is no white space stays before a text that is trimmed at its end.
pub trim_end-before :
    (c : Char) (s : String) → trim_end (c ∷ []) ≡ c ∷ [] → trim_end s ≡ s → trim_end (c ∷ s) ≡ c ∷ s
trim_end-before c [] h k = h
trim_end-before c (d ∷ t) h k = trim_end-cons c (d ∷ t) ∙ ap (closing c) k

lacks-one : (n : ℕ) (c : Char) → nat_eq (code c) n ≡ false → lacks n (c ∷ []) ≡ true
unfolding lacks
lacks-one n c h = rw h refl

split_from-lacks :
    (n : ℕ) (current s : String)
    → lacks n current ≡ true
    → All (λ piece. lacks n piece ≡ true) (split_from n current s)
unfolding split_from lacks
split_from-lacks n current [] h = (h, tt)
split_from-lacks n current (c ∷ s) h = elim (Bool-cases (nat_eq (code c) n)) [
  | inl here ↦ rw here (h, split_from-lacks n "" s refl)
  | inr later ↦ rw later (
      split_from-lacks n (push current c) s
        (lacks-append n current (c ∷ []) h (lacks-one n c later)))
]

-- No piece of a text between separators holds the separator.
pub split-lacks : (n : ℕ) (s : String) → All (λ piece. lacks n piece ≡ true) (split n s)
unfolding split lacks
split-lacks n s = split_from-lacks n "" s refl
