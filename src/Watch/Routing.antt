-- ===== src/Watch/Routing.antt =====
-- Which entries of the `watchers` map of internal/watch/watcher.go an event reaches by prefix.
use my_etcd.Base.{
  ◌≤◌, ◌≡◌, ◌≢◌, ◌↔◌, refl, sym, ap, ◌∙◌, Bool, true, false, ◌&&◌, [], ◌∷◌, ◌++◌, Bytes, bytes_eq,
  bytes_beq, bytes_beq_iff, ◌==◌, length, take, drop, leb, arith, take-append-drop,
}
use my_etcd.Watch.Watcher.{mapping_key, prefix_matches, has_prefix}

take-append_all : (p rest : Bytes) → take (length p) (p ++ rest) ≡ p
take-append_all [] rest = refl
take-append_all (c ∷ p) rest = ap (λ (t : Bytes). c ∷ t) (take-append_all p rest)

length-append_le : (p rest : Bytes) → length p ≤ length (p ++ rest)
length-append_le [] rest = omega arith
length-append_le (c ∷ p) rest = omega (arith, length-append_le p rest)

-- The test of a prefix by its length and a slice is what it says.
has_prefix_iff : (p s : Bytes) → (has_prefix p s ≡ true) ↔ ((rest : Bytes) × (s ≡ p ++ rest))
unfolding has_prefix
has_prefix_iff p s = (
  λ h. (
    drop (length p) s,
    sym (ap (λ (t : Bytes). t ++ drop (length p) s) (starts h) ∙ take-append-drop (length p) s),
  ),
  λ (rest, same). ground (
    arith,
    ap (λ (t : Bytes). length t) same,
    length-append_le p rest,
    ap (λ (t : Bytes). take (length p) t) same,
    take-append_all p rest,
    bytes_beq_iff (take (length p) s) p,
  ),
)
  where
    starts : (leb (length p) (length s) && (take (length p) s == p)) ≡ true → p ≡ take (length p) s
    starts h = ground (arith, bytes_beq_iff (take (length p) s) p)

-- An entry is reached by prefix exactly when it is that of a prefix watch, its prefix is not empty,
-- and the event's key starts with it. So an entry of exact watches is never mistaken for one, and a
-- watch on the empty prefix gets no event.
pub prefix_matches_iff :
    (prefix : Bool) (p key : Bytes)
    → (prefix_matches (mapping_key prefix p) key ≡ true)
      ↔ ((prefix ≡ true) × (p ≢ []) × ((rest : Bytes) × (key ≡ p ++ rest)))
unfolding prefix_matches mapping_key bytes_beq
prefix_matches_iff false p key = (λ h. absurd (ground arith), λ (f, ne, r). absurd (ground arith))
prefix_matches_iff true [] key = (λ h. absurd (ground arith), λ (t, ne, r). absurd (ne refl))
prefix_matches_iff true (c ∷ p) key = (
  λ h. (refl, λ e. absurd (ground arith), (has_prefix_iff (c ∷ p) key).0 (ground arith)),
  λ (t, ne, r). ground (arith, (has_prefix_iff (c ∷ p) key).1 r),
)
