-- ===== src/Base/GoMap.antt =====
-- Go's built-in map, as an association list. A range over a map visits the entries in the list's
-- order; Go leaves that order open, and the theorems about ranges hold for every list.
use mathlib.Core.Path.{◌≡◌, refl, sym, ap, ◌∙◌}
use mathlib.Core.Bool.{false}
use mathlib.Core.Option.{Option, none, some}
use mathlib.Core.List.{List, [], ◌∷◌}
use native.Mathlib.Omega.{arith}
use my_etcd.Base.Tests.{Eq, ◌==◌, if◌then◌else◌, split_if, eq_self}
use my_etcd.Base.Lists.{All}

abbrev pub GoMap {ℓ κ} : Type ℓ → Type κ → Type (ℓ ⊔ κ)
GoMap K V = List (K × V)

module _ {ℓ κ} {K : Type ℓ} {V : Type κ} ⦃e : Eq K⦄ where
  -- v, ok := m[k]
  unfoldable pub lookup : K → GoMap K V → Option V
  lookup key [] = none
  lookup key ((at, value) ∷ rest) = if at == key then some value else lookup key rest

  -- m[k] = v
  unfoldable pub insert : K → V → GoMap K V → GoMap K V
  insert key new [] = (key, new) ∷ []
  insert key new ((at, old) ∷ rest) =
      if at == key then (key, new) ∷ rest else (at, old) ∷ insert key new rest

  -- delete(m, k)
  unfoldable pub delete : K → GoMap K V → GoMap K V
  delete k [] = []
  delete k ((j, v) ∷ m) = let rest = delete k m in if j == k then rest else (j, v) ∷ rest

  pub lookup-insert :
      (key at : K) (new : V) (m : GoMap K V)
      → lookup at (insert key new m) ≡ (if key == at then some new else lookup at m)
  unfolding lookup insert
  lookup-insert key at new [] = refl
  lookup-insert key at new ((other, old) ∷ rest) = ground (
    arith,
    lookup-insert key at new rest,
    e.beq_iff other at,
    e.beq_iff other key,
    e.beq_iff key at,
  )

  pub lookup-delete :
      (k j : K) (m : GoMap K V) → lookup j (delete k m) ≡ (if k == j then none else lookup j m)
  unfolding lookup delete
  lookup-delete k j [] = ground arith
  lookup-delete k j ((i, w) ∷ m) =
      ground (arith, e.beq_iff k j, e.beq_iff i k, e.beq_iff i j, lookup-delete k j m)

  delete-absent : (k : K) (m : GoMap K V) → lookup k m ≡ none → delete k m ≡ m
  unfolding lookup delete
  delete-absent k [] h = refl
  delete-absent k ((i, w) ∷ m) h = ground (arith, delete-absent k m)

  -- A key that is taken out again, where it was new.
  pub delete-insert :
      (k : K) (new : V) (m : GoMap K V) → lookup k m ≡ none → delete k (insert k new m) ≡ m
  unfolding lookup insert delete
  delete-insert k new [] h = ground (arith, eq_self k)
  delete-insert k new ((i, w) ∷ m) h = ground (arith, delete-insert k new m)

  pub lookup-empty : (k : K) → lookup k [] ≡ none
  unfolding lookup
  lookup-empty k = refl

module _ {ℓ κ} {K : Type ℓ} {V : Type κ} ⦃e : Eq K⦄ where
  pub lookup-cons :
      (j k : K) (v : V) (m : GoMap K V)
      → lookup k ((j, v) ∷ m) ≡ (if j == k then some v else lookup k m)
  unfolding lookup
  lookup-cons j k v m = refl

pub ruleset map_laws = (lookup-insert, lookup-delete, lookup-empty)

-- No key stands twice.
module _ {ℓ κ} {K : Type ℓ} {V : Type κ} ⦃e : Eq K⦄ where
  abbrev pub Distinct : GoMap K V → Type κ
  Distinct [] = Unit
  Distinct ((k, v) ∷ m) = (lookup k m ≡ none) × Distinct m

  pub insert-Distinct : (k : K) (v : V) (m : GoMap K V) → Distinct m → Distinct (insert k v m)
  unfolding insert lookup
  insert-Distinct k v [] d = (refl, tt)
  insert-Distinct k v ((j, w) ∷ m) d =
      split_if Distinct (j == k) _ _
        (λ same. (ap (λ (i : K). lookup i m) (sym ((e.beq_iff j k).0 same)) ∙ d.0, d.1))
        (λ other. (rw (lookup-insert, differ j k other) d.0, insert-Distinct k v m d.1))
    where
      differ : (a b : K) → (a == b) ≡ false → (b == a) ≡ false
      differ a b h = ground (arith, e.beq_iff a b, e.beq_iff b a)

  pub delete-Distinct : (k : K) (m : GoMap K V) → Distinct m → Distinct (delete k m)
  unfolding delete
  delete-Distinct k [] d = tt
  delete-Distinct k ((j, w) ∷ m) d =
      let rest = delete-Distinct k m d.1 in
      split_if Distinct (j == k) _ _ (λ same. rest)
        (λ other. (ground (arith, lookup-delete k j m, d.0), rest))

  -- Every entry of `part` is what the map `whole` holds at its key.
  abbrev pub Current : GoMap K V → GoMap K V → Type κ
  Current whole part = All (λ kv. lookup kv.0 whole ≡ some kv.1) part

  -- The key is none of the part's.
  abbrev pub Apart : K → GoMap K V → Type 0
  Apart k part = All (λ kv. (k == kv.0) ≡ false) part

  pub none-Apart : (k : K) (m : GoMap K V) → lookup k m ≡ none → Apart k m
  unfolding lookup
  none-Apart k [] h = tt
  none-Apart k ((j, v) ∷ m) h =
      (ground (arith, e.beq_iff k j, e.beq_iff j k), none-Apart k m (ground arith))

  Current-cons :
      (k : K) (v : V) (whole part : GoMap K V)
      → Apart k part
      → Current whole part
      → Current ((k, v) ∷ whole) part
  unfolding lookup
  Current-cons k v whole [] a c = tt
  Current-cons k v whole ((j, w) ∷ part) a c = (rw a.0 c.0, Current-cons k v whole part a.1 c.1)

  pub Distinct-Current : (m : GoMap K V) → Distinct m → Current m m
  unfolding lookup
  Distinct-Current [] d = tt
  Distinct-Current ((k, v) ∷ m) d =
      (rw (eq_self k), Current-cons k v m m (none-Apart k m d.0) (Distinct-Current m d.1))

  pub Current-delete :
      (k : K) (whole part : GoMap K V)
      → Apart k part
      → Current whole part
      → Current (delete k whole) part
  Current-delete k whole [] a c = tt
  Current-delete k whole ((j, w) ∷ part) a c =
      (rw (lookup-delete, a.0) c.0, Current-delete k whole part a.1 c.1)
