-- ===== src/Config/Examples.antt =====
-- The theorems on internal/config/config.go at work.
use my_etcd.Base.{◌≡◌, ◌≢◌, refl, ap, sym, Option, none, some, [], ◌∷◌, Bytes, codes, if◌then◌else◌}
use my_etcd.Base.Words.{ℤ, pos, negsuc, ltb_ℤ}
use my_etcd.Base.Result.{ok, err}
use my_etcd.Config.Settings.{Config, fill_defaults, validate_config, election_not_above_heartbeat}
use my_etcd.Config.Loader.{JsonConfig, Texts, load, save, to_json}
use my_etcd.Config.Filling.{validate_config-fill_defaults}
use my_etcd.Config.Saving.{IsFaithful, load-save}

-- Heartbeats every two seconds, and the election timeout left out.
abbrev slow : Config
slow = record {
  data_dir = [];
  wal_dir = [];
  snapshot_dir = [];
  snapshot_interval = pos 0;
  max_wal_size = negsuc 4;
  max_snapshots = pos 0;
  heartbeat_interval = pos 2000000000;
  election_timeout = pos 0;
  node_id = codes "node7";
  cluster_nodes = [];
  node_addresses = none;
}

abbrev show : ℤ → Bytes
show (pos n) = n ∷ []
show (negsuc n) = n ∷ 1 ∷ []

abbrev parse : Bytes → Option ℤ
parse (n ∷ []) = some (pos n)
parse (n ∷ m ∷ []) = some (negsuc n)
parse _ = none

-- Texts that know one file.
abbrev known : JsonConfig
known = record {
  data_dir = codes "./data";
  wal_dir = codes "./data/wal";
  snapshot_dir = codes "./data/snapshot";
  snapshot_interval = 3600000000000 ∷ [];
  max_wal_size = pos 67108864;
  max_snapshots = pos 3;
  heartbeat_interval = 2000000000 ∷ [];
  election_timeout = 1000000000 ∷ [];
  node_id = codes "node7";
  cluster_nodes = codes "node1" ∷ [];
  node_addresses = some ((codes "node1", codes "localhost:8080") ∷ []);
}

abbrev texts : Texts
texts = record {
  marshal = λ j. some (1 ∷ []);
  unmarshal = λ content. some known;
  show_duration = show;
  parse_duration = parse;
}

abbrev Is : JsonConfig → Type 0
Is j = j ≡ known

parse-show : (d : ℤ) → parse (show d) ≡ some d
parse-show (pos n) = refl
parse-show (negsuc n) = refl

show_not_empty : (d : ℤ) → show d ≢ []
show_not_empty (pos n) e = cc
show_not_empty (negsuc n) e = cc

texts-IsFaithful : IsFaithful texts Is
texts-IsFaithful = record {
  json_round_trip = λ j content k e. ap (λ (x : JsonConfig). some x) (sym k);
  duration_round_trip = parse-show;
  not_empty = show_not_empty;
}

slow_kept : to_json texts (fill_defaults slow) ≡ known
unfolding to_json fill_defaults
slow_kept = refl

slow_saved : (save texts slow none).2 ≡ ok tt
unfolding save
slow_saved = refl

load-save_example : load texts (save texts slow none).1 ≡ ok (save texts slow none).0
load-save_example = load-save texts Is slow none texts-IsFaithful slow_kept slow_saved

validate_config-fill_defaults_example : validate_config (some (fill_defaults slow)) ≡ (
    if ltb_ℤ (fill_defaults slow).heartbeat_interval (fill_defaults slow).election_timeout
    then ok tt
    else err election_not_above_heartbeat)
validate_config-fill_defaults_example = validate_config-fill_defaults slow
