-- ===== src/Main/Args.antt =====
-- What the command line may say.
use iot_services_monitoring.Common.{◌≡◌, refl, true, List, [], ◌∷◌, ◌++◌, ℤ, if◌then◌else◌}
use iot_services_monitoring.Text.{Text, codes, text_eq}
use iot_services_monitoring.Config.{ServerConfig}
use iot_services_monitoring.State.{max_id_len}
use iot_services_monitoring.Config.{max_path_len}
use iot_services_monitoring.Main.{
  default_config, copied, helped, parsed, missing_value, set_flag, parse_from, parse_args,
}

-- The settings of the command line.
pub data Setting : Type 0 where
  sensor_port http_port auth_host auth_port log_dir : Text → Setting

abbrev pub words_of : Setting → List Text
words_of (sensor_port v) = codes "--sensor-port" ∷ v ∷ []
words_of (http_port v) = codes "--http-port" ∷ v ∷ []
words_of (auth_host v) = codes "--auth-host" ∷ v ∷ []
words_of (auth_port v) = codes "--auth-port" ∷ v ∷ []
words_of (log_dir v) = codes "--log-dir" ∷ v ∷ []

abbrev pub argv_of : List Setting → List Text
argv_of [] = []
argv_of (s ∷ ss) = words_of s ++ argv_of ss

module _ (atoi : Text → ℤ) where
  -- What a setting means.
  abbrev pub apply : Setting → ServerConfig → ServerConfig
  apply (sensor_port v) c = record c { sensor_port = atoi v }
  apply (http_port v) c = record c { http_port = atoi v }
  apply (auth_host v) c = record c { auth_host = copied v max_id_len }
  apply (auth_port v) c = record c { auth_port = atoi v }
  apply (log_dir v) c = record c { log_dir = copied v max_path_len }

  abbrev pub apply_all : List Setting → ServerConfig → ServerConfig
  apply_all [] c = c
  apply_all (s ∷ ss) c = apply_all ss (apply s c)

  parse_from-argv :
      (ss : List Setting) (rest : List Text) (c : ServerConfig)
      → parse_from atoi (argv_of ss ++ rest) c ≡ parse_from atoi rest (apply_all ss c)
  unfolding parse_from set_flag text_eq
  parse_from-argv [] rest c = refl
  parse_from-argv (sensor_port v ∷ ss) rest c =
      parse_from-argv ss rest (record c { sensor_port = atoi v })
  parse_from-argv (http_port v ∷ ss) rest c =
      parse_from-argv ss rest (record c { http_port = atoi v })
  parse_from-argv (auth_host v ∷ ss) rest c =
      parse_from-argv ss rest (record c { auth_host = copied v max_id_len })
  parse_from-argv (auth_port v ∷ ss) rest c =
      parse_from-argv ss rest (record c { auth_port = atoi v })
  parse_from-argv (log_dir v ∷ ss) rest c =
      parse_from-argv ss rest (record c { log_dir = copied v max_path_len })

  abbrev pub IsHelp : Text → Type 0
  IsHelp word = text_eq word (codes "--help") ≡ true

  -- Settings are applied in order to the defaults, so that the last of each kind counts; one more
  -- word behind them is --help, which prints the usage, or is refused as a flag without a value.
  pub parse_args_settings :
      (ss : List Setting) (flag : Text)
      → (parse_args atoi (argv_of ss ++ []) ≡ parsed (apply_all ss default_config))
        × (parse_args atoi (argv_of ss ++ (flag ∷ []))
            ≡ (if text_eq flag (codes "--help") then helped else missing_value flag))
  unfolding parse_args parse_from
  parse_args_settings ss flag =
      (parse_from-argv ss [] default_config, parse_from-argv ss (flag ∷ []) default_config)
