-- ===== src/Prelude/Sorting.antt =====
-- `sort.Slice`, and Go's ranging over a map. The order in which Go visits a map is not fixed: it is
-- an argument of what ranges over one, a rearrangement of the entries that the caller chooses.
use mathlib.Core.List.{List, [], ◌∷◌, Pairwise, Perm, Permᴰ, rel_of_Pairwise-cons, mem-cons_self}
use mathlib.Core.List.Pairwise
use mathlib.Core.List.Perm
use mathlib.Core.List.Permᴰ
use mathlib.Core.List
use mathlib.Core.Bool.{Bool, true, false, ◌||◌}
use mathlib.Core.Logic.{inl, inr, ∥∥₁_elim}
use mathlib.Core.Path.{◌≡◌, refl, ◌∙◌, sym, subst}
use native.Mathlib.Omega.{arith}
use web_hook_project.Prelude.Tests.{if◌then◌else◌, Bool-cases}
use web_hook_project.Prelude.Lists.{keep, All}

-- An order of visits: each entry once.
pub record Ranging {ℓ} (A : Type ℓ) : Type ℓ where
  pub visit : List A → List A
  pub visits_all : (xs : List A) → Perm (visit xs) xs

-- The order of the representation, which the tests use.
abbrev pub in_order {ℓ} : {A : Type ℓ} → Ranging A
in_order = record { visit = λ xs. xs; visits_all = λ xs. Perm.refl xs }

module _ {ℓ} {A : Type ℓ} (less : A → A → Bool) where
  unfoldable pub insert_sorted : A → List A → List A
  insert_sorted a [] = a ∷ []
  insert_sorted a (x ∷ xs) = if less a x then a ∷ x ∷ xs else x ∷ insert_sorted a xs

  -- Insertion sort by `less`. Items that `less` does not separate may come in any order from
  -- `sort.Slice`; here their order follows the order of visits.
  unfoldable pub sort_slice : List A → List A
  unfolding insert_sorted
  sort_slice [] = []
  sort_slice (x ∷ xs) = insert_sorted x (sort_slice xs)

  -- `less` tells the two items apart.
  abbrev pub Apart : A → A → Type 0
  Apart a b = (less a b || less b a) ≡ true

-- A test that is a strict order, total on items with distinct keys.
pub record IsLess {ℓ} {A : Type ℓ} (less : A → A → Bool) : Type ℓ where
  pub asymmetric : (a b : A) → less a b ≡ true → less b a ≡ false
  pub transitive : (a b c : A) → less a b ≡ true → less b c ≡ true → less a c ≡ true
  pub cotransitive : (a b c : A) → less a b ≡ true → less c b ≡ false → less a c ≡ true

module _ {ℓ} {A : Type ℓ} (less : A → A → Bool) (h : IsLess less) where
  -- The order of two insertions does not matter for items that `less` separates.
  insert_sorted_swap :
      (a b : A) (l : List A)
      → less a b ≡ true
      → insert_sorted less a (insert_sorted less b l)
        ≡ insert_sorted less b (insert_sorted less a l)
  unfolding insert_sorted
  insert_sorted_swap a b [] lt = ground (arith, h.asymmetric a b)
  insert_sorted_swap a b (x ∷ xs) lt = ground (
    arith,
    insert_sorted_swap a b xs lt,
    h.asymmetric a b,
    h.transitive a b x,
    h.cotransitive a b x,
    h.asymmetric a x,
  )

  abbrev Bool-set : IsSet Bool
  Bool-set = hlevel

  Apart-symm : (a b : A) → Apart less a b → Apart less b a
  Apart-symm a b e = ground arith

  insert_sorted_comm :
      (a b : A) (l : List A)
      → Apart less a b
      → insert_sorted less a (insert_sorted less b l)
        ≡ insert_sorted less b (insert_sorted less a l)
  insert_sorted_comm a b l e = elim (Bool-cases (less a b)) [
    | inl lt ↦ insert_sorted_swap a b l lt
    | inr no_lt ↦ sym (insert_sorted_swap b a l (ground arith))
  ]

  sort_slice-keep-permᴰ :
      (p : A → Bool) {xs ys : List A}
      → Permᴰ xs ys
      → Pairwise (Apart less) xs
      → sort_slice less (keep p xs) ≡ sort_slice less (keep p ys)
  unfolding sort_slice keep
  sort_slice-keep-permᴰ p Permᴰ.nil w = refl
  sort_slice-keep-permᴰ p (Permᴰ.cons {a = a} {b = b} e r) w =
      ground (arith, sort_slice-keep-permᴰ p r (Pairwise.of_cons w))
  sort_slice-keep-permᴰ p (Permᴰ.swap {a = a} {b = b} {a' = a'} {b' = b'} {l = l} e f) w = ground (
    arith,
    insert_sorted_comm a b (sort_slice less (keep p l)) (rel_of_Pairwise-cons w mem-cons_self),
  )
  sort_slice-keep-permᴰ p (Permᴰ.trans r s) w =
      sort_slice-keep-permᴰ p r w
      ∙ sort_slice-keep-permᴰ p s (Permᴰ.pairwise (λ a b. Bool-set _ _) Apart-symm r w)

  -- What a visit in any order selects and sorts does not depend on the order.
  pub sort_slice-visit :
      IsSet A
      → (p : A → Bool) (r : Ranging A) (xs : List A) → Pairwise (Apart less) xs
      → sort_slice less (keep p (r.visit xs)) ≡ sort_slice less (keep p xs)
  sort_slice-visit set p r xs w =
      ∥∥₁_elim (r.visits_all xs) (List.is_set set _ _)
        (λ q. sym (sort_slice-keep-permᴰ p (Permᴰ.symm q) w))

-- What holds of all entries holds of all that a visit meets.
module _ {ℓ κ} {A : Type ℓ} (P : A → Type κ) (pP : (a : A) → IsProp (P a)) where
  All-prop : (xs : List A) → IsProp (All P xs)
  All-prop [] = hlevel
  All-prop (x ∷ xs) = hlevel (pP x, All-prop xs)

  All-permᴰ : {xs ys : List A} → Permᴰ xs ys → All P xs → All P ys
  All-permᴰ Permᴰ.nil h = tt
  All-permᴰ (Permᴰ.cons e r) h = (subst P e h.0, All-permᴰ r h.1)
  All-permᴰ (Permᴰ.swap e f) h = (subst P f h.1.0, (subst P e h.0, h.1.1))
  All-permᴰ (Permᴰ.trans r s) h = All-permᴰ s (All-permᴰ r h)

  pub All-visit : (r : Ranging A) (xs : List A) → All P xs → All P (r.visit xs)
  All-visit r xs h =
      ∥∥₁_elim (r.visits_all xs) (All-prop (r.visit xs)) (λ q. All-permᴰ (Permᴰ.symm q) h)
