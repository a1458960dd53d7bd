-- ===== src/Prelude/Maps.antt =====
-- Go maps as association lists: a write replaces the entry of its key or adds one at the end.
use mathlib.Core.List.{List, [], ◌∷◌, ◌++◌, map}
use mathlib.Core.Logic.{◌≢◌, ◌⊎◌, inl, inr}
use mathlib.Core.Option.{Option, none, some}
use mathlib.Core.Path.{◌≡◌, refl}
use native.Mathlib.Omega.{arith}
use web_hook_project.Prelude.Equality.{Eq, ◌==◌, beq_refl}
use web_hook_project.Prelude.Tests.{if◌then◌else◌, Bool-cases}

abbrev pub Map {ℓ κ} : Type ℓ → Type κ → Type (ℓ ⊔ κ)
Map K V = List (K × V)

-- The values in the order of the representation; Go ranges over them in any order.
abbrev pub values {ℓ κ} : {K : Type ℓ} {V : Type κ} → Map K V → List V
values m = map (λ e. e.1) m

module _ {ℓ κ} {K : Type ℓ} {V : Type κ} ⦃e : Eq K⦄ where
  unfoldable pub get : K → Map K V → Option V
  get k [] = none
  get k ((j, v) ∷ m) = if k == j then some v else get k m

  unfoldable pub put : K → V → Map K V → Map K V
  put k v [] = (k, v) ∷ []
  put k v ((j, w) ∷ m) = if k == j then (j, v) ∷ m else (j, w) ∷ put k v m

  unfoldable pub del : K → Map K V → Map K V
  del k [] = []
  del k ((j, w) ∷ m) = let rest = del k m in if k == j then rest else (j, w) ∷ rest

  pub get-put :
      (k j : K) (v : V) (m : Map K V) → get j (put k v m) ≡ (if j == k then some v else get j m)
  unfolding get put
  get-put k j v [] = refl
  get-put k j v ((i, w) ∷ m) =
      ground (arith, get-put k j v m, e.decides k i, e.decides j i, e.decides j k)

  pub get-del : (k j : K) (m : Map K V) → get j (del k m) ≡ (if j == k then none else get j m)
  unfolding get del
  get-del k j [] = ground arith
  get-del k j ((i, w) ∷ m) =
      ground (arith, get-del k j m, e.decides k i, e.decides j i, e.decides j k)

  pub get-put_self : (k : K) (v : V) (m : Map K V) → get k (put k v m) ≡ some v
  get-put_self k v m = ground (arith, get-put k k v m, beq_refl k)

  pub get-put_ne : (k j : K) (v : V) (m : Map K V) → j ≢ k → get j (put k v m) ≡ get j m
  get-put_ne k j v m h = ground (arith, get-put k j v m, e.decides j k)

  -- A new key goes to the end.
  pub put-new : (k : K) (v : V) (m : Map K V) → get k m ≡ none → put k v m ≡ m ++ (k, v) ∷ []
  unfolding get put
  put-new k v [] h = refl
  put-new k v ((i, w) ∷ m) h = ground (arith, put-new k v m)

pub ruleset map_laws = (get-put, get-del)

module _ {ℓ κ} {K : Type ℓ} {V : Type κ} ⦃e : Eq K⦄ where
  -- A write forgets no key.
  pub get-put-some :
      (k j : K) (v x : V) (m : Map K V) → get j m ≡ some x → (y : V) × (get j (put k v m) ≡ some y)
  get-put-some k j v x m h = elim (Bool-cases (j == k)) [
    | inl same ↦ (v, ground (arith, get-put k j v m))
    | inr other ↦ (x, ground (arith, get-put k j v m))
  ]

  -- Where a found entry comes from.
  pub get-put_cases :
      (k j : K) (v x : V) (m : Map K V)
      → get j (put k v m) ≡ some x
      → ((j ≡ k) × (x ≡ v)) ⊎ ((j ≢ k) × (get j m ≡ some x))
  get-put_cases k j v x m h = elim (Bool-cases (j == k)) [
    | inl same ↦ inl ((e.decides j k).0 same, ground (arith, get-put k j v m))
    | inr other ↦ inr (ground (arith, e.decides j k), ground (arith, get-put k j v m))
  ]

  -- A new key hides nothing.
  pub get-put_fresh :
      (k j : K) (v x : V) (m : Map K V)
      → get k m ≡ none
      → get j m ≡ some x
      → get j (put k v m) ≡ some x
  get-put_fresh k j v x m fresh h = ground (arith, get-put k j v m, e.decides j k)

  pub get-del_self : (k : K) (m : Map K V) → get k (del k m) ≡ none
  get-del_self k m = ground (arith, get-del k k m, beq_refl k)

  pub get-del_ne : (k j : K) (m : Map K V) → j ≢ k → get j (del k m) ≡ get j m
  get-del_ne k j m h = ground (arith, get-del k j m, e.decides j k)
