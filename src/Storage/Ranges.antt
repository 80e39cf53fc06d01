-- ===== src/Storage/Ranges.antt =====
-- Range of internal/storage/engine.go: the sort of its keys, and which keys it collects.
use my_etcd.Base.{
  ℕ, zero, suc, ◌+◌, ◌≤◌, ◌≡◌, inl, inr, refl, sym, subst, Bool, true, false, not, ◌&&◌, Option,
  none, some, List, [], ◌∷◌, Bytes, bytes_eq, ◌==◌, if◌then◌else◌, length, All, arith, Bool-cases,
  bytes_beq_iff, bytes_ltb,
}
use my_etcd.Base.Words.{ℤ}
use my_etcd.Base.GoMap.{lookup, Distinct}
use my_etcd.Storage.Data.{KeyValue, Data, is_expired}
use my_etcd.Storage.Queries.{bubble, sort_keys, keys_between}

-- Go's `<=` on strings.
abbrev pub AtMost : Bytes → Bytes → Type 0
AtMost a b = bytes_ltb b a ≡ false

-- Each key is at most every later one.
abbrev pub IsAscending : List Bytes → Type 0
IsAscending [] = Unit
IsAscending (x ∷ xs) = All (λ y. AtMost x y) xs × IsAscending xs

-- How often the key stands in the list.
abbrev pub count : Bytes → List Bytes → ℕ
count k [] = 0
count k (x ∷ xs) = (if x == k then 1 else 0) + count k xs

AtMost-refl : (a : Bytes) → AtMost a a
unfolding bytes_ltb
AtMost-refl [] = refl
AtMost-refl (x ∷ a) = ground (arith, AtMost-refl a)

AtMost-asym : (a b : Bytes) → bytes_ltb a b ≡ true → AtMost a b
unfolding bytes_ltb
AtMost-asym [] [] h = refl
AtMost-asym [] (y ∷ b) h = refl
AtMost-asym (x ∷ a) [] h = absurd (cc h)
AtMost-asym (x ∷ a) (y ∷ b) h = ground (arith, AtMost-asym a b)

AtMost-trans : (a b c : Bytes) → AtMost a b → AtMost b c → AtMost a c
unfolding bytes_ltb
AtMost-trans [] [] [] p q = refl
AtMost-trans [] [] (z ∷ c) p q = refl
AtMost-trans [] (y ∷ b) [] p q = refl
AtMost-trans [] (y ∷ b) (z ∷ c) p q = refl
AtMost-trans (x ∷ a) [] c p q = absurd (cc p)
AtMost-trans (x ∷ a) (y ∷ b) [] p q = absurd (cc q)
AtMost-trans (x ∷ a) (y ∷ b) (z ∷ c) p q = ground (arith, AtMost-trans a b c)

-- One pass: what holds of all keys holds of the least and the rest.
bubble-All :
    (P : Bytes → Type 0) (x : Bytes) (ys : List Bytes)
    → P x
    → All P ys
    → P (bubble x ys).0 × All P (bubble x ys).1
unfolding bubble
bubble-All P x [] p ps = (p, tt)
bubble-All P x (y ∷ ys) p ps = elim (Bool-cases (bytes_ltb y x)) [
  | inl h ↦ let r = bubble-All P y ys ps.0 ps.1 in rw h (r.0, (p, r.1))
  | inr h ↦ let r = bubble-All P x ys p ps.1 in rw h (r.0, (ps.0, r.1))
]

All-map : (P Q : Bytes → Type 0) (xs : List Bytes) → ((y : Bytes) → P y → Q y) → All P xs → All Q xs
All-map P Q [] f h = tt
All-map P Q (x ∷ xs) f h = (f x h.0, All-map P Q xs f h.1)

-- The first of the pair is at most `x` and all keys of the second.
abbrev Least : Bytes → Bytes × List Bytes → Type 0
Least x r = AtMost r.0 x × All (λ y. AtMost r.0 y) r.1

-- The pass over `y ∷ ys`, by the result `b` of its first comparison.
abbrev pass : Bytes → Bytes → List Bytes → Bool → Bytes × List Bytes
pass x y ys b = let r = bubble (if b then y else x) ys in (r.0, (if b then x else y) ∷ r.1)

bubble-Least : (x : Bytes) (ys : List Bytes) → Least x (bubble x ys)
unfolding bubble
bubble-Least x [] = (AtMost-refl x, tt)
bubble-Least x (y ∷ ys) = elim (Bool-cases (bytes_ltb y x)) [
  | inl h ↦
      let r = bubble-Least y ys in
      let le = AtMost-trans (bubble y ys).0 y x r.0 (AtMost-asym y x h) in
      subst (λ b. Least x (pass x y ys b)) (sym h) (le, (le, r.1))
  | inr h ↦
      let r = bubble-Least x ys in
      subst (λ b. Least x (pass x y ys b)) (sym h)
        (r.0, (AtMost-trans (bubble x ys).0 x y r.0 h, r.1))
]

bubble-count :
    (k x : Bytes) (ys : List Bytes)
    → (if (bubble x ys).0 == k then 1 else 0) + count k (bubble x ys).1
      ≡ (if x == k then 1 else 0) + count k ys
unfolding bubble
bubble-count k x [] = refl
bubble-count k x (y ∷ ys) = elim (Bool-cases (bytes_ltb y x)) [
  | inl h ↦ rw h (omega (arith, bubble-count k y ys))
  | inr h ↦ rw h (omega (arith, bubble-count k x ys))
]

length-bubble : (x : Bytes) (ys : List Bytes) → length (bubble x ys).1 ≡ length ys
unfolding bubble
length-bubble x [] = refl
length-bubble x (y ∷ ys) = omega (arith, length-bubble (if bytes_ltb y x then y else x) ys)

sort_keys-All :
    (P : Bytes → Type 0) (fuel : ℕ) (xs : List Bytes) → All P xs → All P (sort_keys fuel xs)
unfolding sort_keys
sort_keys-All P fuel [] h = tt
sort_keys-All P zero (x ∷ xs) h = h
sort_keys-All P (suc fuel) (x ∷ xs) h =
    let r = bubble-All P x xs h.0 h.1 in (r.0, sort_keys-All P fuel (bubble x xs).1 r.1)

pub sort_keys-IsAscending :
    (fuel : ℕ) (xs : List Bytes) → length xs ≤ fuel → IsAscending (sort_keys fuel xs)
unfolding sort_keys
sort_keys-IsAscending fuel [] h = tt
sort_keys-IsAscending zero (x ∷ xs) h = absurd (omega arith)
sort_keys-IsAscending (suc fuel) (x ∷ xs) h = (
  sort_keys-All (λ y. AtMost (bubble x xs).0 y) fuel (bubble x xs).1 (bubble-Least x xs).1,
  sort_keys-IsAscending fuel (bubble x xs).1 (omega (arith, length-bubble x xs)),
)

pub sort_keys-count :
    (k : Bytes) (fuel : ℕ) (xs : List Bytes) → count k (sort_keys fuel xs) ≡ count k xs
unfolding sort_keys
sort_keys-count k fuel [] = refl
sort_keys-count k zero (x ∷ xs) = refl
sort_keys-count k (suc fuel) (x ∷ xs) =
    omega (arith, sort_keys-count k fuel (bubble x xs).1, bubble-count k x xs)

-- The key is live at `now` and stands in the range.
abbrev pub in_range : ℤ → Bytes → Bytes → Bytes → Option KeyValue → Bool
in_range now low high k found = elim found [
  | none ↦ false
  | some kv ↦ not (is_expired now kv) && (not (bytes_ltb k low) && bytes_ltb k high)
]

pub count-keys_between :
    (now : ℤ) (low high k : Bytes) (d : Data)
    → Distinct d
    → count k (keys_between now low high d)
      ≡ (if in_range now low high k (lookup k d) then 1 else 0)
unfolding keys_between lookup
count-keys_between now low high k [] u = refl
count-keys_between now low high k ((j, kv) ∷ d) u =
    ground (arith, count-keys_between now low high k d u.1, u.0, bytes_beq_iff j k)
