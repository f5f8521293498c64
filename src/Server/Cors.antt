-- ===== src/Server/Cors.antt =====
-- Which origins may call the service from a browser.
use affinidi_trust_registry.Server.{
  CorsLayer, permissive, restricted, add_origin, parsed_origins, allow_origin, build_cors_layer,
}
use affinidi_trust_registry.Prelude.{
  String, ◌≡◌, ◌≢◌, ◌⊎◌, inl, inr, refl, ap, Bool, ◌||◌, Option, some, List, [], ◌∷◌, Result, ok,
  err, All, ◌==◌, string_eq, Option-cases, arith, true, false, Bool-cases,
}

abbrev Among : {A : Type 0} → A → List A → Type 0
Among x [] = ⊥
Among x (y ∷ ys) = (y ≡ x) ⊎ Among x ys

abbrev pub any : {A : Type 0} → (A → Bool) → List A → Bool
any p [] = false
any p (x ∷ xs) = p x || any p xs

-- What holds of all elements holds of one for which a test succeeds.
any-true :
    {A : Type 0} (P : A → Type 0) (p : A → Bool) (xs : List A)
    → All P xs
    → any p xs ≡ true
    → (x : A) × P x × (p x ≡ true)
any-true P p [] h e = absurd (let x : ⊥ = cc in x)
any-true P p (x ∷ xs) h e = elim (Bool-cases (p x)) [
  | inl found ↦ (x, h.0, found)
  | inr other ↦ any-true P p xs h.1 (ground arith)
]

any-false :
    {A : Type 0} (P : A → Type 0) (p : A → Bool) (xs : List A)
    → All P xs
    → any p xs ≡ false
    → All (λ x. P x × (p x ≡ false)) xs
any-false P p [] h e = tt
any-false P p (x ∷ xs) h e =
    let here : p x ≡ false = ground arith in
    let later : any p xs ≡ false = ground arith in ((h.0, here), any-false P p xs h.1 later)

module _ {Origin : Type 0} (parse : String → Option Origin) where
  -- The origin is what some text of the list is parsed to.
  abbrev pub IsParsed : List String → Origin → Type 0
  IsParsed [] origin = ⊥
  IsParsed (text ∷ texts) origin = (parse text ≡ some origin) ⊎ IsParsed texts origin

  IsParsed-later :
      (text : String) (texts : List String) (origins : List Origin)
      → All (IsParsed texts) origins
      → All (IsParsed (text ∷ texts)) origins
  IsParsed-later text texts [] h = tt
  IsParsed-later text texts (origin ∷ origins) (p, h) = (inr p, IsParsed-later text texts origins h)

  module _ (panics : List Origin → Bool) where
    parsed_origins-IsParsed :
        (texts : List String) → All (IsParsed texts) (parsed_origins parse panics texts)
    parsed_origins-IsParsed [] = tt
    parsed_origins-IsParsed (text ∷ texts) =
        let later =
          IsParsed-later text texts (parsed_origins parse panics texts)
            (parsed_origins-IsParsed texts) in
        elim (Option-cases (parse text)) [
          | inl refused ↦ rw (refused, add_origin) later
          | inr (origin, e) ↦ rw (e, add_origin) (inl e, later)
        ]

    parsed_origins-Among :
        (texts : List String) (origin : Origin)
        → IsParsed texts origin
        → Among origin (parsed_origins parse panics texts)
    parsed_origins-Among [] origin h = absurd h
    parsed_origins-Among (text ∷ texts) origin (inl e) = rw (e, add_origin) (inl refl)
    parsed_origins-Among (text ∷ texts) origin (inr h) =
        let later = parsed_origins-Among texts origin h in
        elim (Option-cases (parse text)) [
          | inl refused ↦ rw (refused, add_origin) later
          | inr (first, e) ↦ rw (e, add_origin) (inr later)
        ]

  module _ (panics : List Origin → Bool) (is_wildcard : Origin → Bool) where
    -- Every origin is allowed just for no configured origin or the one origin `*`. Otherwise the layer
    -- has just the configured origins that can be parsed, none of which is a wildcard, or the program
    -- panics, since one of them is.
    abbrev pub Allows : List String → Result (CorsLayer Origin) String → Type 0
    Allows allowed (ok permissive) = (allowed ≡ []) ⊎ (allowed ≡ "*" ∷ [])
    Allows allowed (ok (restricted origins)) =
        (allowed ≢ [])
        × (allowed ≢ "*" ∷ [])
        × All (λ origin. IsParsed allowed origin × (is_wildcard origin ≡ false)) origins
        × ((origin : Origin) → IsParsed allowed origin → Among origin origins)
    Allows allowed (err e) =
        (allowed ≢ [])
        × (allowed ≢ "*" ∷ [])
        × ((origin : Origin) × IsParsed allowed origin × (is_wildcard origin ≡ true))

    star_lem : (origin : String) → (origin == "*") ≡ true → origin ≡ "*"
    star_lem origin e = ground arith

    not_star : (origin : String) → (origin == "*") ≡ false → origin ≢ "*"
    not_star origin e h = ground arith

    abbrev first : List String → String
    first [] = ""
    first (text ∷ texts) = text

    module _ (documented : (origins : List Origin) → panics origins ≡ any is_wildcard origins) where
      allow_origin-Allows :
          (allowed : List String)
          → allowed ≢ []
          → allowed ≢ "*" ∷ []
          → Allows allowed (allow_origin parse panics (parsed_origins parse panics allowed))
      unfolding allow_origin
      allow_origin-Allows allowed full other =
          let origins = parsed_origins parse panics allowed in
          let parsed = parsed_origins-IsParsed panics allowed in
          elim (Bool-cases (any is_wildcard origins)) [
            | inl e ↦
                rw (documented origins, e)
                  (full, other, any-true (IsParsed allowed) is_wildcard origins parsed e)
            | inr e ↦
                rw (documented origins, e)
                  (
                    full,
                    other,
                    any-false (IsParsed allowed) is_wildcard origins parsed e,
                    parsed_origins-Among panics allowed,
                  )
          ]

      -- If `allow_origin` panics just on a list with a wildcard, as it documents, then all origins are
      -- allowed exactly where no origin or only `*` is configured; otherwise either the allowed
      -- origins are just those that are configured and can be parsed, none of them a wildcard, or the
      -- program panics, and one of those is a wildcard.
      pub build_cors_layer-Allows :
          (allowed_origins : List String)
          → Allows allowed_origins (build_cors_layer parse panics allowed_origins)
      unfolding build_cors_layer
      build_cors_layer-Allows [] = inl refl
      build_cors_layer-Allows (origin ∷ []) = elim (Bool-cases (origin == "*")) [
        | inl star ↦ rw star (inr (ap (λ s. s ∷ []) (star_lem origin star)))
        | inr other ↦
            rw other (
              allow_origin-Allows (origin ∷ []) (λ e. cc) (λ e. not_star origin other (ap first e)))
      ]
      build_cors_layer-Allows (origin ∷ other ∷ origins) =
          allow_origin-Allows (origin ∷ other ∷ origins) (λ e. cc) (λ e. cc)
