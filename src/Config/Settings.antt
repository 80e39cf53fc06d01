-- ===== src/Config/Settings.antt =====
-- types.Config, and the checks, defaults and merges of internal/config/config.go.
use my_etcd.Base.{Bool, Option, none, some, List, [], ◌∷◌, Bytes, codes, if◌then◌else◌}
use my_etcd.Base.Words.{ℤ, pos, ltb_ℤ}
use my_etcd.Base.GoMap.{GoMap}
use my_etcd.Base.Result.{Result, ok, err}

-- types.Config. Durations are nanoseconds; a nil map is `none`, a nil slice the empty one.
pub record Config : Type 0 where
  pub data_dir : Bytes
  pub wal_dir : Bytes
  pub snapshot_dir : Bytes
  pub snapshot_interval : ℤ
  pub max_wal_size : ℤ
  pub max_snapshots : ℤ
  pub heartbeat_interval : ℤ
  pub election_timeout : ℤ
  pub node_id : Bytes
  pub cluster_nodes : List Bytes
  pub node_addresses : Option (GoMap Bytes Bytes)

pub data ConfigError : Type 0 where
  config_is_nil data_dir_required wal_dir_required snapshot_dir_required : ConfigError
  node_id_required snapshot_interval_not_positive heartbeat_not_positive : ConfigError
  election_not_positive election_not_above_heartbeat : ConfigError
  parse_failed marshal_failed nothing_to_save : ConfigError

-- DefaultConfig
abbrev pub default_config : Config
default_config = record {
  data_dir = codes "./data";
  wal_dir = codes "./data/wal";
  snapshot_dir = codes "./data/snapshot";
  snapshot_interval = pos 3600000000000;
  max_wal_size = pos 67108864;
  max_snapshots = pos 3;
  heartbeat_interval = pos 100000000;
  election_timeout = pos 1000000000;
  node_id = codes "node1";
  cluster_nodes = codes "node1" ∷ [];
  node_addresses = some ((codes "node1", codes "localhost:8080") ∷ []);
}

abbrev pub or_default {ℓ} : {A : Type ℓ} → List A → List A → List A
or_default [] default = default
or_default (x ∷ xs) default = x ∷ xs

abbrev pub positive_or : ℤ → ℤ → ℤ
positive_or n default = if ltb_ℤ (pos 0) n then n else default

abbrev pub given_or : {A : Type 0} → Option A → Option A → Option A
given_or none default = default
given_or (some a) default = some a

-- validateAndFillDefaults
unfoldable pub fill_defaults : Config → Config
fill_defaults c = record {
  data_dir = or_default c.data_dir default_config.data_dir;
  wal_dir = or_default c.wal_dir default_config.wal_dir;
  snapshot_dir = or_default c.snapshot_dir default_config.snapshot_dir;
  snapshot_interval = positive_or c.snapshot_interval default_config.snapshot_interval;
  max_wal_size = positive_or c.max_wal_size default_config.max_wal_size;
  max_snapshots = positive_or c.max_snapshots default_config.max_snapshots;
  heartbeat_interval = positive_or c.heartbeat_interval default_config.heartbeat_interval;
  election_timeout = positive_or c.election_timeout default_config.election_timeout;
  node_id = or_default c.node_id default_config.node_id;
  cluster_nodes = or_default c.cluster_nodes default_config.cluster_nodes;
  node_addresses = given_or c.node_addresses default_config.node_addresses;
}

-- The result of a test that must hold, and then of what follows.
abbrev pub require :
    Bool → ConfigError → Result ConfigError (Unit {0}) → Result ConfigError (Unit {0})
require test x rest = if test then rest else err x

abbrev pub is_given : Bytes → Bool
is_given [] = Bool.false
is_given (b ∷ bs) = Bool.true

-- ValidateConfig; `none` is the nil pointer.
unfoldable pub validate_config : Option Config → Result ConfigError (Unit {0})
validate_config none = err config_is_nil
validate_config (some c) = require (is_given c.data_dir) data_dir_required (
    require (is_given c.wal_dir) wal_dir_required (
      require (is_given c.snapshot_dir) snapshot_dir_required (
        require (is_given c.node_id) node_id_required (
          require (ltb_ℤ (pos 0) c.snapshot_interval) snapshot_interval_not_positive (
            require (ltb_ℤ (pos 0) c.heartbeat_interval) heartbeat_not_positive (
              require (ltb_ℤ (pos 0) c.election_timeout) election_not_positive (
                require (ltb_ℤ c.heartbeat_interval c.election_timeout) election_not_above_heartbeat
                  (ok tt))))))))

abbrev pub addresses_or :
    Option (GoMap Bytes Bytes) → Option (GoMap Bytes Bytes) → Option (GoMap Bytes Bytes)
addresses_or none base = base
addresses_or (some []) base = base
addresses_or (some (a ∷ m)) base = some (a ∷ m)

-- MergeConfigs
unfoldable pub merge_configs : Option Config → Option Config → Option Config
merge_configs none override = override
merge_configs (some base) none = some base
merge_configs (some base) (some o) = some (record {
  data_dir = or_default o.data_dir base.data_dir;
  wal_dir = or_default o.wal_dir base.wal_dir;
  snapshot_dir = or_default o.snapshot_dir base.snapshot_dir;
  snapshot_interval = positive_or o.snapshot_interval base.snapshot_interval;
  max_wal_size = positive_or o.max_wal_size base.max_wal_size;
  max_snapshots = positive_or o.max_snapshots base.max_snapshots;
  heartbeat_interval = positive_or o.heartbeat_interval base.heartbeat_interval;
  election_timeout = positive_or o.election_timeout base.election_timeout;
  node_id = or_default o.node_id base.node_id;
  cluster_nodes = or_default o.cluster_nodes base.cluster_nodes;
  node_addresses = addresses_or o.node_addresses base.node_addresses;
})
