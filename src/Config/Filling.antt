-- ===== src/Config/Filling.antt =====
-- The defaults of internal/config/config.go against its checks.
use my_etcd.Base.{
  ◌≡◌, refl, ap, ◌∙◌, Bool, true, Option, none, some, List, [], ◌∷◌, Bytes, if◌then◌else◌, arith,
}
use my_etcd.Base.Words.{ℤ, pos, ltb_ℤ}
use my_etcd.Base.GoMap.{GoMap}
use my_etcd.Base.Result.{Result, ok, err}
use my_etcd.Config.Settings.{
  Config, ConfigError, election_not_above_heartbeat, default_config, or_default, given_or,
  positive_or, fill_defaults, is_given, validate_config, require,
}

or_default-or_default {ℓ} :
    {A : Type ℓ} (xs d : List A) → or_default (or_default xs d) d ≡ or_default xs d
or_default-or_default [] [] = refl
or_default-or_default [] (y ∷ ys) = refl
or_default-or_default (x ∷ xs) d = refl

positive_or-positive_or : (n d : ℤ) → positive_or (positive_or n d) d ≡ positive_or n d
positive_or-positive_or n d = ground arith

is_given-or_default : (xs d : Bytes) → is_given d ≡ true → is_given (or_default xs d) ≡ true
is_given-or_default [] d h = h
is_given-or_default (x ∷ xs) d h = refl

positive_or-positive : (n d : ℤ) → ltb_ℤ (pos 0) d ≡ true → ltb_ℤ (pos 0) (positive_or n d) ≡ true
positive_or-positive n d h = ground arith

-- Filling the defaults in twice is the same as once.
pub fill_defaults-twice : (c : Config) → fill_defaults (fill_defaults c) ≡ fill_defaults c
unfolding fill_defaults
fill_defaults-twice c =
    rw
      (
        or_default-or_default c.data_dir default_config.data_dir,
        or_default-or_default c.wal_dir default_config.wal_dir,
        or_default-or_default c.snapshot_dir default_config.snapshot_dir,
        positive_or-positive_or c.snapshot_interval default_config.snapshot_interval,
        positive_or-positive_or c.max_wal_size default_config.max_wal_size,
        positive_or-positive_or c.max_snapshots default_config.max_snapshots,
        positive_or-positive_or c.heartbeat_interval default_config.heartbeat_interval,
        positive_or-positive_or c.election_timeout default_config.election_timeout,
        or_default-or_default c.node_id default_config.node_id,
        or_default-or_default c.cluster_nodes default_config.cluster_nodes,
        addresses c.node_addresses,
      )
      refl
  where
    addresses :
        (a : Option (GoMap Bytes Bytes))
        → given_or (given_or a default_config.node_addresses) default_config.node_addresses
          ≡ given_or a default_config.node_addresses
    addresses none = refl
    addresses (some m) = refl

require-true :
    (test : Bool) (x : ConfigError) (rest : Result ConfigError (Unit {0}))
    → test ≡ true
    → require test x rest ≡ rest
require-true test x rest h = ap (λ (b : Bool). if b then rest else err x) h

-- A configuration whose defaults are filled in, as Load returns it, passes each test of ValidateConfig
-- but perhaps the last: the check fails exactly when the election timeout is not above the heartbeat
-- interval, which filling in does not see to.
pub validate_config-fill_defaults :
    (c : Config)
    → validate_config (some (fill_defaults c)) ≡ (
        if ltb_ℤ (fill_defaults c).heartbeat_interval (fill_defaults c).election_timeout
        then ok tt
        else err election_not_above_heartbeat)
unfolding validate_config fill_defaults
validate_config-fill_defaults c =
    require-true _ _ _ (is_given-or_default c.data_dir default_config.data_dir refl)
    ∙ require-true _ _ _ (is_given-or_default c.wal_dir default_config.wal_dir refl)
    ∙ require-true _ _ _ (is_given-or_default c.snapshot_dir default_config.snapshot_dir refl)
    ∙ require-true _ _ _ (is_given-or_default c.node_id default_config.node_id refl)
    ∙ require-true _ _ _
        (positive_or-positive c.snapshot_interval default_config.snapshot_interval refl)
    ∙ require-true _ _ _
        (positive_or-positive c.heartbeat_interval default_config.heartbeat_interval refl)
    ∙ require-true _ _ _
        (positive_or-positive c.election_timeout default_config.election_timeout refl)
