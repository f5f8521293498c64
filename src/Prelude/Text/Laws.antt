-- ===== src/Prelude/Text/Laws.antt =====
-- Splitting a text at a separator.
use Prim.Native.Char.{Char, code}
use Prim.Native.String.{String, [], ◌∷◌, ◌++◌}
use mathlib.Core.Path.{◌≡◌, ap, ◌∙◌}
use mathlib.Core.Bool.{Bool, true, ◌&&◌, not}
use mathlib.Core.List.{List}
use native.Mathlib.Omega.{arith}
use text.Mathlib.TextLemmas.{
  nil≢cons, tail-eq_of_cons-eq, append-nil, append_assoc, nil-append, cons-append,
}
use affinidi_trust_registry.Prelude.Equality.{if◌then◌else◌, Bool-cases}
use mathlib.Core.Logic.{inl, inr, ◌↔◌}
use Prim.Native.Nat.{ℕ}
use affinidi_trust_registry.Prelude.Text.{nat_eq, push, split_from, split}

-- The text holds no character of that code.
unfoldable pub lacks : ℕ → String → Bool
lacks n [] = true
lacks n (c ∷ s) = not (nat_eq (code c) n) && lacks n s

-- What stands before the first character of that code
unfoldable pub before : ℕ → String → String
before n [] = []
before n (c ∷ s) = let rest = c ∷ before n s in if nat_eq (code c) n then [] else rest

push-append : (current : String) (c : Char) (s : String) → push current c ++ s ≡ current ++ c ∷ s
push-append current c s =
    append_assoc current (c ∷ []) s
    ∙ ap (λ t. current ++ t) (cons-append c [] s ∙ ap (λ t. c ∷ t) (nil-append s))

split_from-append :
    (n : ℕ) (current s : String) (c : Char) (t : String)
    → lacks n s ≡ true
    → code c ≡ n
    → split_from n current (s ++ c ∷ t) ≡ List.◌∷◌ (current ++ s) (split_from n "" t)
unfolding lacks split_from
split_from-append n current [] c t p e = rw (nil-append (c ∷ t), append-nil current) (ground arith)
split_from-append n current (d ∷ s) c t p e =
    rw (cons-append d s (c ∷ t))
      (ground (arith, split_from-append n (push current d) s c t, push-append current d s))

-- A text with a separator splits into what stands before it and the pieces of the rest.
pub split-append :
    (n : ℕ) (s : String) (c : Char) (t : String)
    → lacks n s ≡ true
    → code c ≡ n
    → split n (s ++ c ∷ t) ≡ List.◌∷◌ s (split n t)
unfolding split
split-append n s c t p e =
    split_from-append n "" s c t p e ∙ ap (λ x. List.◌∷◌ x (split_from n "" t)) (nil-append s)

split_from_head :
    (n : ℕ) (current s : String)
    → (rest : List String) × (split_from n current s ≡ List.◌∷◌ (current ++ before n s) rest)
unfolding split_from before
split_from_head n current [] = (List.[], rw (append-nil current))
split_from_head n current (c ∷ s) = elim (Bool-cases (nat_eq (code c) n)) [
  | inl here ↦ (split_from n "" s, rw (here, append-nil current))
  | inr later ↦
      let (rest, e) = split_from_head n (push current c) s in
      (rest, rw (later, e, push-append current c (before n s)))
]

-- The first piece of a text is what stands before the first separator.
pub split_head :
    (n : ℕ) (s : String) → (rest : List String) × (split n s ≡ List.◌∷◌ (before n s) rest)
unfolding split
split_head n s =
    let (rest, e) = split_from_head n "" s in
    (rest, e ∙ ap (λ x. List.◌∷◌ x rest) (nil-append (before n s)))

-- Nothing is cut off exactly when there is no separator.
pub before-eq_iff : (n : ℕ) (s : String) → (before n s ≡ s) ↔ (lacks n s ≡ true)
unfolding before lacks
before-eq_iff n [] = ground arith
before-eq_iff n (c ∷ s) = elim (Bool-cases (nat_eq (code c) n)) [
  | inl here ↦ rw here (λ h. absurd (nil≢cons h), λ h. cc)
  | inr later ↦
      let (to, from) = before-eq_iff n s in
      rw later (λ h. to (tail-eq_of_cons-eq h), λ h. ap (λ t. c ∷ t) (from h))
]
