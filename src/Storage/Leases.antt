-- ===== src/Storage/Leases.antt =====
-- The lease cleanup of internal/storage/engine.go: which keys a tick takes out of the data.
use my_etcd.Base.{
  ℕ, ◌+◌, ◌≡◌, refl, ap, ◌∙◌, Bool, false, ◌||◌, none, List, [], ◌∷◌, Bytes, bytes_eq, ◌==◌,
  if◌then◌else◌, arith, split_option, bytes_beq_iff,
}
use my_etcd.Base.Words.{ℤ, int_eq}
use my_etcd.Base.GoMap.{lookup, lookup-delete, Distinct}
use my_etcd.Lease.Manager.{get_expired_keys}
use my_etcd.Lease.Expiry.{gone_keys, get_expired_keys_exact}
use my_etcd.Storage.Engine.{Engine}
use my_etcd.Storage.Queries.{delete_expired, lease_cleanup}

abbrev pub listed : Bytes → List Bytes → Bool
listed j [] = false
listed j (key ∷ keys) = key == j || listed j keys

module _ {W : Type 0} where
  lookup-delete_expired :
      (clock : ℕ → ℤ) (j : Bytes) (keys : List Bytes) (e : Engine W)
      → lookup j (delete_expired clock keys e).data_map
        ≡ (if listed j keys then none else lookup j e.data_map)
  unfolding delete_expired
  lookup-delete_expired clock j [] e = refl
  lookup-delete_expired clock j (key ∷ keys) e =
      lookup-delete_expired (λ i. clock (i + 1)) j keys _
      ∙ split_option
          (λ (x : Engine W).
            (if listed j keys then none else lookup j x.data_map)
            ≡ (if listed j (key ∷ keys) then none else lookup j e.data_map))
          (lookup key e.data_map) _ _ (λ n. ground (arith, n, bytes_beq_iff key j))
          (λ kv there. ground (arith, lookup-delete key j e.data_map))

  -- A tick of the lease cleanup takes exactly the keys of the leases that are past their time at its
  -- reading of the clock (and not revoked) out of the data, and leaves every other key as it was. The
  -- lease manager is open and its lease IDs are distinct.
  pub lease_cleanup_exact :
      (clock : ℕ → ℤ) (e : Engine W)
      → e.lease_manager.closed ≡ false
      → Distinct e.lease_manager.leases
      → (j : Bytes)
      → lookup j (lease_cleanup clock e).data_map ≡ (
          if listed j (gone_keys (clock 0) e.lease_manager e.lease_manager.leases)
          then none
          else lookup j e.data_map)
  unfolding lease_cleanup
  lease_cleanup_exact clock e o u j =
      let (m, keys) = get_expired_keys (clock 0) e.lease_manager in
      lookup-delete_expired (λ i. clock (i + 1)) j keys (record e { lease_manager = m })
      ∙ ap (λ (ks : List Bytes). if listed j ks then none else lookup j e.data_map)
          (get_expired_keys_exact (clock 0) e.lease_manager o u).1
