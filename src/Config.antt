-- ===== src/Config.antt =====
-- server/include/config.h: the sizes that the network code shares, and the configuration that main.c
-- fills in before the threads start and that is only read afterwards.
use iot_services_monitoring.Common.{ℕ, ◌+◌, List, [], ◌∷◌, ◌++◌, ℤ, pos, negsuc, take, ◌-◌}
use iot_services_monitoring.Text.{Text, codes, decimal}

abbrev pub max_path_len : ℕ
max_path_len = 256

abbrev pub http_response_max : ℕ
http_response_max = 65536

abbrev pub sensor_port_default : ℤ
sensor_port_default = pos 9090

abbrev pub http_port_default : ℤ
http_port_default = pos 8080

abbrev pub auth_host_default : Text
auth_host_default = codes "localhost"

abbrev pub auth_port_default : ℤ
auth_port_default = pos 5000

abbrev pub log_dir_default : Text
log_dir_default = codes "logs"

abbrev pub log_filename : Text
log_filename = codes "server.log"

pub record ServerConfig : Type 0 where
  pub sensor_port : ℤ
  pub http_port : ℤ
  pub auth_host : Text
  pub auth_port : ℤ
  pub log_dir : Text

-- %d
unfoldable pub print_int : ℤ → Text
unfolding decimal
print_int (pos n) = decimal n
print_int (negsuc n) = b'-' ∷ decimal (n + 1)

-- The texts one after the other, as a format with %s puts them.
unfoldable pub concat : List Text → Text
concat [] = []
concat (s ∷ ss) = s ++ concat ss

-- snprintf into a buffer of `size` bytes.
abbrev pub snprintf : ℕ → List Text → Text
snprintf size parts = take (size - 1) (concat parts)
