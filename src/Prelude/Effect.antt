-- ===== src/Prelude/Effect.antt =====
-- Methods that work on a state and may fail: what they wrote before a failure stays written.
use affinidi_trust_registry.Prelude.Outcome.{Result, ok, err, map_err}

abbrev pub Effect {ℓ} : Type ℓ → Type ℓ → Type ℓ → Type ℓ
Effect S E A = S → Result A E × S

module _ {ℓ} {S E A : Type ℓ} where
  abbrev pub pure : A → Effect S E A
  pure a s = (ok a, s)

  abbrev pub raise : E → Effect S E A
  raise e s = (err e, s)

  abbrev pub lift : Result A E → Effect S E A
  lift r s = (r, s)

module _ {ℓ} {S E A B : Type ℓ} where
  abbrev pub continue : Result A E → (A → Effect S E B) → Effect S E B
  continue (ok a) f s = f a s
  continue (err e) f s = (err e, s)

  infixl 5 ◌>>=◌ ◌>>◌
  abbrev pub ◌>>=◌ : Effect S E A → (A → Effect S E B) → Effect S E B
  ◌>>=◌ m f s = let (r, s') = m s in continue r f s'

  abbrev pub ◌>>◌ : Effect S E A → Effect S E B → Effect S E B
  m >> n = m >>= λ _. n

-- `.map_err(f)` on what a call returns
abbrev pub with_error {ℓ} : {S E F A : Type ℓ} → (E → F) → Effect S E A → Effect S F A
with_error f m s = let (r, s') = m s in (map_err f r, s')
