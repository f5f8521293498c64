-- ===== src/Prelude/HashMap.antt =====
-- `std::collections::HashMap`, as the list of its entries in an iteration order. The order is
-- what `insert` and `remove` leave; no theorem about a program part depends on it.
use mathlib.Core.Path.{◌≡◌, refl}
use mathlib.Core.Bool.{Bool}
use mathlib.Core.Option.{Option, none, some}
use mathlib.Core.List.{List, [], ◌∷◌}
use native.Mathlib.Omega.{arith}
use affinidi_trust_registry.Prelude.Equality.{Eq, ◌==◌, if◌then◌else◌}
use affinidi_trust_registry.Prelude.Outcome.{is_some}

abbrev pub HashMap {ℓ κ} : Type ℓ → Type κ → Type (ℓ ⊔ κ)
HashMap K V = List (K × V)

unfoldable pub values {ℓ κ} : {K : Type ℓ} {V : Type κ} → HashMap K V → List V
values [] = []
values ((k, v) ∷ m) = v ∷ values m

module _ {ℓ κ} {K : Type ℓ} {V : Type κ} ⦃e : Eq K⦄ where
  unfoldable pub get : K → HashMap K V → Option V
  get k [] = none
  get k ((j, v) ∷ m) = if j == k then some v else get k m

  unfoldable pub contains_key : K → HashMap K V → Bool
  unfolding get
  contains_key k m = is_some (get k m)

  unfoldable pub insert : K → V → HashMap K V → HashMap K V
  insert key value [] = (key, value) ∷ []
  insert key value ((other, there) ∷ rest) =
      if other == key then (key, value) ∷ rest else (other, there) ∷ insert key value rest

  -- Every entry of the key goes; a map holds at most one.
  unfoldable pub remove : K → HashMap K V → HashMap K V
  remove k [] = []
  remove k ((j, w) ∷ m) = let rest = remove k m in if j == k then rest else (j, w) ∷ rest

  abbrev pub NodupKeys : HashMap K V → Type κ
  NodupKeys [] = Unit
  NodupKeys ((k, _) ∷ m) = (get k m ≡ none) × NodupKeys m

  pub get-insert :
      (j k : K) (v : V) (m : HashMap K V)
      → get j (insert k v m) ≡ (if k == j then some v else get j m)
  unfolding get insert
  get-insert j k v [] = ground arith
  get-insert j k v (_ ∷ m) = ground (arith, get-insert j k v m)

  pub get-remove :
      (j k : K) (m : HashMap K V) → get j (remove k m) ≡ (if k == j then none else get j m)
  unfolding get remove
  get-remove j k [] = ground arith
  get-remove j k (_ ∷ m) = ground (arith, get-remove j k m)

  pub insert-NodupKeys : (k : K) (v : V) (m : HashMap K V) → NodupKeys m → NodupKeys (insert k v m)
  unfolding get insert
  insert-NodupKeys k v [] h = (refl, tt)
  insert-NodupKeys k v ((j, w) ∷ m) (fresh, h) =
      ground (arith, get-insert j k v m, insert-NodupKeys k v m h)

  pub remove-NodupKeys : (k : K) (m : HashMap K V) → NodupKeys m → NodupKeys (remove k m)
  unfolding get remove
  remove-NodupKeys k [] h = tt
  remove-NodupKeys k ((j, w) ∷ m) (fresh, h) =
      ground (arith, get-remove j k m, remove-NodupKeys k m h)

  pub remove_absent : (k : K) (m : HashMap K V) → get k m ≡ none → remove k m ≡ m
  unfolding get remove
  remove_absent k [] h = refl
  remove_absent k ((j, w) ∷ m) h = ground (arith, remove_absent k m)
