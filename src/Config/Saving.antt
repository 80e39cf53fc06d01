-- ===== src/Config/Saving.antt =====
-- Save and Load of internal/config/config.go.
use my_etcd.Base.{◌≡◌, ◌≢◌, refl, ap, ◌∙◌, Option, none, some, [], ◌∷◌, Bytes, split_option}
use my_etcd.Base.Words.{ℤ, pos}
use my_etcd.Base.Result.{Result, ok, err}
use my_etcd.Config.Settings.{Config, ConfigError, parse_failed, fill_defaults}
use my_etcd.Config.Loader.{JsonConfig, Texts, read_duration, to_config, to_json, load, save}
use my_etcd.Config.Filling.{fill_defaults-twice}

-- What is relied on of encoding/json and package time: a JSONConfig of the kind `kept` and a duration
-- are read as they were written, and no duration has an empty text. JSON keeps no string that is not
-- UTF-8.
pub record IsFaithful (t : Texts) (kept : JsonConfig → Type 0) : Type 0 where
  pub json_round_trip :
      (j : JsonConfig) (content : Bytes)
      → kept j
      → t.marshal j ≡ some content
      → t.unmarshal content ≡ some j
  pub duration_round_trip : (d : ℤ) → t.parse_duration (t.show_duration d) ≡ some d
  pub not_empty : (d : ℤ) → t.show_duration d ≢ []

read_duration-show :
    (t : Texts) (kept : JsonConfig → Type 0) (d : ℤ)
    → IsFaithful t kept
    → read_duration t (t.show_duration d) ≡ d
read_duration-show t kept d h = shown (t.show_duration d) (h.duration_round_trip d) (h.not_empty d)
  where
    shown : (text : Bytes) → t.parse_duration text ≡ some d → text ≢ [] → read_duration t text ≡ d
    shown [] p n = absurd (n refl)
    shown (b ∷ text) p n = ap (λ (o : Option ℤ). elim o as (λ _. ℤ) [ none ↦ pos 0 | some e ↦ e ]) p

to_config-to_json :
    (t : Texts) (kept : JsonConfig → Type 0) (c : Config)
    → IsFaithful t kept
    → to_config t (to_json t c) ≡ c
unfolding to_config to_json
to_config-to_json t kept c h =
    rw
      (
        read_duration-show t kept c.snapshot_interval h,
        read_duration-show t kept c.heartbeat_interval h,
        read_duration-show t kept c.election_timeout h,
      )
      refl

-- If Save returns no error, Load of the file that it wrote returns the configuration that the caller
-- holds after Save, whose missing and non-positive settings Save has replaced by the defaults.
-- Conditions: encoding/json and the texts of durations are as `IsFaithful` says, and the written
-- configuration is of the kind that JSON keeps.
pub load-save :
    (t : Texts) (kept : JsonConfig → Type 0) (c : Config) (file : Option Bytes)
    → IsFaithful t kept
    → kept (to_json t (fill_defaults c))
    → (save t c file).2 ≡ ok tt
    → load t (save t c file).1 ≡ ok (save t c file).0
unfolding save load
load-save t kept c file h k =
    split_option
      (λ (r : Config × Option Bytes × Result ConfigError (Unit {0})).
        r.2 ≡ ok tt → load t r.1 ≡ ok r.0)
      (t.marshal (to_json t (fill_defaults c))) _ _ (λ n e. absurd (cc e))
      (λ content written e.
        ap
          (λ (o : Option JsonConfig). elim o as (λ _. Result ConfigError Config) [
            | none ↦ err parse_failed
            | some j ↦ ok (fill_defaults (to_config t j))
          ])
          (h.json_round_trip (to_json t (fill_defaults c)) content k written)
        ∙ ap (λ (x : Config). ok (fill_defaults x)) (to_config-to_json t kept (fill_defaults c) h)
        ∙ ap (λ (x : Config). ok x) (fill_defaults-twice c))
