-- ===== src/Config/Load.antt =====
-- Load and LoadFromEnv of internal/config/config.go. `os.ReadFile`, `yaml.Unmarshal` and `os.Getenv` are
-- parameters; the text of an error is not modelled.
use realtime_room_middleware.Base.{ℕ, Option, none, some, List, String, is_empty, if◌then◌else◌}
use realtime_room_middleware.Base.Floats.{Floats}
use realtime_room_middleware.Base.Result.{Result, ok, err}
use realtime_room_middleware.Config.{Config}
use realtime_room_middleware.Config.Validate.{ConfigFault, validate}

pub data LoadFault : Type 0 where
  unreadable unparsable : String → LoadFault
  invalid : ConfigFault → LoadFault
  no_path : LoadFault

module _ (fl : Floats) where
  open fl use {F32}

  validated : Config F32 → Option ConfigFault → Result LoadFault (Config F32)
  validated cfg none = ok cfg
  validated cfg (some e) = err (invalid e)

  parsed : String → Option (Config F32) → Result LoadFault (Config F32)
  unfolding validated validate
  parsed path none = err (unparsable path)
  parsed path (some cfg) = validated cfg (validate fl cfg)

  -- Load
  unfoldable pub load :
      (String → Option (List ℕ))
      → (List ℕ → Option (Config F32))
      → String
      → Result LoadFault (Config F32)
  unfolding parsed
  load read_file unmarshal path = elim (read_file path) [
    | none ↦ err (unreadable path)
    | some bytes ↦ parsed path (unmarshal bytes)
  ]

  -- LoadFromEnv; an unset variable is the empty text.
  unfoldable pub load_from_env :
      (String → String)
      → (String → Option (List ℕ))
      → (List ℕ → Option (Config F32))
      → Result LoadFault (Config F32)
  unfolding load
  load_from_env getenv read_file unmarshal =
      let path = getenv "CONFIG_PATH" in
      if is_empty path then err no_path else load read_file unmarshal path
