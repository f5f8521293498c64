-- ===== src/Tests/Coding.antt =====
-- A concrete text form of lists of texts and of JSON values, which the parameters of the tests use:
-- texts are joined with their characters marked, and a value is the program of a stack machine.
use Prim.Native.Char.{Char, code}
use Prim.Native.String.{[], ◌∷◌}
use affinidi_trust_registry.Prelude.Text.{nat_eq}
use affinidi_trust_registry.Prelude.{
  ℕ, zero, suc, String, Bool, true, false, ◌≡◌, refl, ap, ◌∙◌, List, string_eq,
}

abbrev pub mark : Char
mark = Char.char 120 tt

abbrev dot : Char
dot = Char.char 46 tt

-- Every character marked, and a dot at the end
abbrev pub join_onto : String → String → String
join_onto [] t = dot ∷ t
join_onto (c ∷ s) t = mark ∷ c ∷ join_onto s t

abbrev pub join : List String → String
join List.[] = "e"
join (List.◌∷◌ s ss) = join_onto s (join ss)

abbrev onto_head : Char → List String → List String
onto_head c List.[] = List.◌∷◌ (c ∷ []) List.[]
onto_head c (List.◌∷◌ s ss) = List.◌∷◌ (c ∷ s) ss

-- The texts back; the flag tells that the next character was marked.
abbrev pub parts : Bool → String → List String
parts marked [] = List.[]
parts true (c ∷ s) = onto_head c (parts false s)
parts false (c ∷ s) = elim (nat_eq (code c) 46) [
  | true ↦ List.◌∷◌ [] (parts false s)
  | false ↦ elim (nat_eq (code c) 120) [ true ↦ parts true s | false ↦ List.[] ]
]

parts-join_onto : (s t : String) → parts false (join_onto s t) ≡ List.◌∷◌ s (parts false t)
parts-join_onto [] t = refl
parts-join_onto (c ∷ s) t = ap (onto_head c) (parts-join_onto s t)

pub parts-join : (ss : List String) → parts false (join ss) ≡ ss
parts-join List.[] = refl
parts-join (List.◌∷◌ s ss) = parts-join_onto s (join ss) ∙ ap (λ l. List.◌∷◌ s l) (parts-join ss)

abbrev pub unary : ℕ → String
unary zero = []
unary (suc n) = mark ∷ unary n

abbrev pub count : String → ℕ
count [] = 0
count (c ∷ s) = suc (count s)

pub count-unary : (n : ℕ) → count (unary n) ≡ n
count-unary zero = refl
count-unary (suc n) = ap suc (count-unary n)
