-- ===== src/Raft/Copies.antt =====
-- A state machine of internal/raft/statemachine.go that is restored from the snapshot of another.
use my_etcd.Base.{
  ℕ, ◌≤◌, ◌≡◌, ◌≢◌, refl, ap, ◌∙◌, Option, none, some, [], ◌∷◌, Bytes, bytes_eq, arith, All,
}
use my_etcd.Base.GoMap.{GoMap, lookup, lookup-insert}
use my_etcd.Raft.StateMachine.{SimpleStateMachine}
use my_etcd.Raft.Snapshots.{
  JsonValue, json_text, JsonSnapshot, Json, written_values, written_terms, to_json, snapshot,
  read_values, read_terms, restore,
}

-- What is relied on of encoding/json: an object of the kind `kept` is read as it was written, a []byte
-- that is not empty is written as its base64 text, and a number up to 2^53 stays as it is.
pub record IsJson (j : Json) (base64 : Bytes → Bytes) (kept : JsonSnapshot → Type 0) : Type 0 where
  pub round_trip :
      (object : JsonSnapshot) (content : Bytes)
      → kept object
      → j.marshal object ≡ some content
      → j.unmarshal content ≡ some object
  pub as_text : (value : Bytes) → value ≢ [] → j.write_value value ≡ json_text (base64 value)
  pub exact : (n : ℕ) → n ≤ 9007199254740992 → j.float n ≡ n

abbrev pub mapped : {A B : Type 0} → (A → B) → Option A → Option B
mapped f none = none
mapped f (some a) = some (f a)

read_values-written :
    (j : Json) (base64 : Bytes → Bytes) (kept : JsonSnapshot → Type 0) (key : Bytes)
    (m : GoMap Bytes Bytes)
    → IsJson j base64 kept
    → All (λ (p : Bytes × Bytes). p.1 ≢ []) m
    → lookup key (read_values (written_values j m)) ≡ mapped base64 (lookup key m)
unfolding read_values written_values lookup
read_values-written j base64 kept key [] h full = refl
read_values-written j base64 kept key ((at, value) ∷ rest) h full =
    ap (λ (x : JsonValue). lookup key (read_values ((at, x) ∷ written_values j rest)))
      (h.as_text value full.0)
    ∙ lookup-insert at key (base64 value) (read_values (written_values j rest))
    ∙ ground (arith, read_values-written j base64 kept key rest h full.1)

read_terms-written :
    (j : Json) (base64 : Bytes → Bytes) (kept : JsonSnapshot → Type 0) (key : Bytes)
    (m : GoMap Bytes ℕ)
    → IsJson j base64 kept
    → All (λ (p : Bytes × ℕ). p.1 ≤ 9007199254740992) m
    → lookup key (read_terms (written_terms j m)) ≡ lookup key m
unfolding read_terms written_terms lookup
read_terms-written j base64 kept key [] h small = refl
read_terms-written j base64 kept key ((at, term) ∷ rest) h small =
    lookup-insert at key (j.float term) (read_terms (written_terms j rest))
    ∙ ground (arith, read_terms-written j base64 kept key rest h small.1, h.exact term small.0)

-- Restore from what Snapshot wrote, onto any state machine: it succeeds, each key has its term again,
-- but each value is the base64 text of the value that it was. Conditions: encoding/json is as `IsJson`
-- says, the snapshot was written and is of the kind that JSON keeps, no value is
-- empty, and no term is above 2^53.
pub restore-snapshot :
    (j : Json) (base64 : Bytes → Bytes) (kept : JsonSnapshot → Type 0)
    (sm other : SimpleStateMachine) (content : Bytes)
    → IsJson j base64 kept
    → kept (to_json j sm)
    → snapshot j sm ≡ some content
    → All (λ (p : Bytes × Bytes). p.1 ≢ []) sm.data_map
    → All (λ (p : Bytes × ℕ). p.1 ≤ 9007199254740992) sm.terms
    → (copy : SimpleStateMachine) × (restore j content other ≡ some copy)
      × ((key : Bytes) → lookup key copy.data_map ≡ mapped base64 (lookup key sm.data_map))
      × ((key : Bytes) → lookup key copy.terms ≡ lookup key sm.terms)
unfolding restore snapshot to_json
restore-snapshot j base64 kept sm other content h k wrote full small = (
  record {
    data_map = read_values (written_values j sm.data_map);
    terms = read_terms (written_terms j sm.terms);
  },
  ap
      (λ (o : Option JsonSnapshot). elim o as (λ _. Option SimpleStateMachine) [
        | none ↦ none
        | some object ↦ some (record {
          data_map = elim object.data_map as (λ _. GoMap Bytes Bytes) [
            | none ↦ other.data_map
            | some m ↦ read_values m
          ];
          terms = elim object.terms as (λ _. GoMap Bytes ℕ) [
            | none ↦ other.terms
            | some m ↦ read_terms m
          ];
        })
      ])
      (h.round_trip _ content k wrote),
  (λ key. read_values-written j base64 kept key sm.data_map h full),
  (λ key. read_terms-written j base64 kept key sm.terms h small),
)
