-- ===== src/Storage/Key/Separator.antt =====
-- The text of a key against the key: it tells keys apart as long as no part but the last holds the
-- separator, and two keys with one text otherwise.
use Prim.Native.Char.{Char, code}
use Prim.Native.String.{[], ◌∷◌}
use mathlib.Core.Path.{ap₂}
use text.Mathlib.TextLemmas.{
  nil-append, cons-append, append_assoc, head-eq_of_cons-eq, tail-eq_of_cons-eq,
}
use affinidi_trust_registry.Domain.Ids.{Action, Resource}
use affinidi_trust_registry.Storage.Key.{RecordKey, generate_key, key_text}
use affinidi_trust_registry.Prelude.Text.{nat_eq}
use affinidi_trust_registry.Prelude.{
  String, ◌<>◌, Bool, true, not, ◌&&◌, ◌≡◌, refl, sym, ap, ◌∙◌, arith,
}

-- The text holds no separator.
unfoldable pub is_plain_text : String → Bool
is_plain_text [] = true
is_plain_text (c ∷ s) = not (nat_eq (code c) b'|') && is_plain_text s

-- The first three parts of the key hold no separator.
unfoldable pub is_plain : RecordKey → Bool
unfolding is_plain_text
is_plain k =
    is_plain_text k.entity_id.text
    && is_plain_text k.authority_id.text
    && is_plain_text k.action.text

abbrev pub bar : Char
bar = Char.char 124 tt

bar-append : (s : String) → "|" <> s ≡ bar ∷ s
bar-append s = cons-append bar [] s ∙ ap (λ t. bar ∷ t) (nil-append s)

-- A text with no separator is recovered from a longer text as what stands before the first one.
split_unique :
    (x y s t : String)
    → is_plain_text x ≡ true
    → is_plain_text y ≡ true
    → x <> (bar ∷ s) ≡ y <> (bar ∷ t)
    → (x ≡ y) × (s ≡ t)
unfolding is_plain_text
split_unique [] [] s t p q e =
    (refl, tail-eq_of_cons-eq (sym (nil-append (bar ∷ s)) ∙ e ∙ nil-append (bar ∷ t)))
split_unique [] (d ∷ y) s t p q e =
    let h =
      ap code (head-eq_of_cons-eq (sym (nil-append (bar ∷ s)) ∙ e ∙ cons-append d y (bar ∷ t))) in
    absurd (ground arith)
split_unique (c ∷ x) [] s t p q e =
    let h =
      ap code (head-eq_of_cons-eq (sym (cons-append c x (bar ∷ s)) ∙ e ∙ nil-append (bar ∷ t))) in
    absurd (ground arith)
split_unique (c ∷ x) (d ∷ y) s t p q e =
    let e' = sym (cons-append c x (bar ∷ s)) ∙ e ∙ cons-append d y (bar ∷ t) in
    let (same, rest) = split_unique x y s t (ground arith) (ground arith) (tail-eq_of_cons-eq e') in
    (ap₂ ◌∷◌ (head-eq_of_cons-eq e') same, rest)

split_key :
    (x y s t : String)
    → is_plain_text x ≡ true
    → is_plain_text y ≡ true
    → x <> "|" <> s ≡ y <> "|" <> t
    → (x ≡ y) × (s ≡ t)
split_key x y s t p q e = split_unique x y s t p q (rw (bar-append s, bar-append t) at e)

-- Two keys with one text are the same key, if no part of either but the last holds a separator.
pub key_text_injective :
    (j k : RecordKey) → is_plain j ≡ true → is_plain k ≡ true → key_text j ≡ key_text k → j ≡ k
unfolding generate_key is_plain
key_text_injective j k p q e =
    let (entity, rest) =
      split_key j.entity_id.text k.entity_id.text _ _ (ground arith) (ground arith) e in
    let (authority, rest') =
      split_key j.authority_id.text k.authority_id.text _ _ (ground arith) (ground arith) rest in
    let (action, resource) =
      split_key j.action.text k.action.text _ _ (ground arith) (ground arith) rest' in
    ground arith

-- A separator inside an identifier moves the border: the entity `x|y` under the authority `z`
-- has the key text of the entity `x` under the authority `y|z`.
pub key_text_collision :
    (x y z : String) (a : Action) (r : Resource)
    → generate_key (record { text = x <> "|" <> y }) (record { text = z }) a r
      ≡ generate_key (record { text = x }) (record { text = y <> "|" <> z }) a r
unfolding generate_key
key_text_collision x y z a r = simp append_assoc
