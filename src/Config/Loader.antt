-- ===== src/Config/Loader.antt =====
-- JSONLoader and ConfigManager of internal/config/config.go. encoding/json and the texts of durations
-- are a parameter, `Texts`. A path that ends in .json and any other one have the same loader.
use my_etcd.Base.{Option, none, some, List, [], ◌∷◌, Bytes}
use my_etcd.Base.Words.{ℤ, pos}
use my_etcd.Base.GoMap.{GoMap}
use my_etcd.Base.Result.{Result, ok, err}
use my_etcd.Config.Settings.{
  Config, ConfigError, parse_failed, marshal_failed, nothing_to_save, default_config, fill_defaults,
}

-- JSONConfig: its durations are texts.
pub record JsonConfig : Type 0 where
  pub data_dir : Bytes
  pub wal_dir : Bytes
  pub snapshot_dir : Bytes
  pub snapshot_interval : Bytes
  pub max_wal_size : ℤ
  pub max_snapshots : ℤ
  pub heartbeat_interval : Bytes
  pub election_timeout : Bytes
  pub node_id : Bytes
  pub cluster_nodes : List Bytes
  pub node_addresses : Option (GoMap Bytes Bytes)

-- json.MarshalIndent and json.Unmarshal of a JSONConfig, Duration.String and time.ParseDuration;
-- `none` where they return an error.
pub record Texts : Type 0 where
  pub marshal : JsonConfig → Option Bytes
  pub unmarshal : Bytes → Option JsonConfig
  pub show_duration : ℤ → Bytes
  pub parse_duration : Bytes → Option ℤ

-- A duration of the file: 0, where it is left out or cannot be parsed.
abbrev pub read_duration : Texts → Bytes → ℤ
read_duration t [] = pos 0
read_duration t (b ∷ text) = elim (t.parse_duration (b ∷ text)) [ none ↦ pos 0 | some d ↦ d ]

-- The conversions of Load and Save.
unfoldable pub to_config : Texts → JsonConfig → Config
to_config t j = record {
  data_dir = j.data_dir;
  wal_dir = j.wal_dir;
  snapshot_dir = j.snapshot_dir;
  snapshot_interval = read_duration t j.snapshot_interval;
  max_wal_size = j.max_wal_size;
  max_snapshots = j.max_snapshots;
  heartbeat_interval = read_duration t j.heartbeat_interval;
  election_timeout = read_duration t j.election_timeout;
  node_id = j.node_id;
  cluster_nodes = j.cluster_nodes;
  node_addresses = j.node_addresses;
}

unfoldable pub to_json : Texts → Config → JsonConfig
to_json t c = record {
  data_dir = c.data_dir;
  wal_dir = c.wal_dir;
  snapshot_dir = c.snapshot_dir;
  snapshot_interval = t.show_duration c.snapshot_interval;
  max_wal_size = c.max_wal_size;
  max_snapshots = c.max_snapshots;
  heartbeat_interval = t.show_duration c.heartbeat_interval;
  election_timeout = t.show_duration c.election_timeout;
  node_id = c.node_id;
  cluster_nodes = c.cluster_nodes;
  node_addresses = c.node_addresses;
}

-- Load, of a file that can be read or is not there.
unfoldable pub load : Texts → Option Bytes → Result ConfigError Config
load t none = ok default_config
load t (some content) = elim (t.unmarshal content) [
  | none ↦ err parse_failed
  | some j ↦ ok (fill_defaults (to_config t j))
]

-- Save: the configuration that the caller holds, which the defaults are filled into, and the file.
unfoldable pub save :
    Texts → Config → Option Bytes → Config × Option Bytes × Result ConfigError (Unit {0})
save t c file =
    let filled = fill_defaults c in
    elim (t.marshal (to_json t filled)) [
      | none ↦ (filled, file, err marshal_failed)
      | some content ↦ (filled, some content, ok tt)
    ]

-- ConfigManager, with the file at its path.
pub record ConfigManager : Type 0 where
  pub config : Option Config
  pub file : Option Bytes

-- ConfigManager.Load, which Reload calls.
unfoldable pub manager_load : Texts → ConfigManager → ConfigManager × Result ConfigError Config
manager_load t m = elim (load t m.file) [
  | err x ↦ (m, err x)
  | ok c ↦ (record m { config = some c }, ok c)
]

-- ConfigManager.Save
unfoldable pub manager_save : Texts → ConfigManager → ConfigManager × Result ConfigError (Unit {0})
manager_save t m = elim m.config [
  | none ↦ (m, err nothing_to_save)
  | some c ↦
      let (filled, file, r) = save t c m.file in (record { config = some filled; file = file }, r)
]

-- UpdateConfig
unfoldable pub update_config : Option Config → ConfigManager → ConfigManager
update_config c m = record m { config = c }
