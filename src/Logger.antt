-- ===== src/Logger.antt =====
-- server/src/logger.c: the lines of the log, and where they go. The clock is the argument `ts`, the
-- text that get_timestamp leaves. write_log is one step on the texts of the console and of the file
-- here, and in Logger/Threads a sequence of steps under log_mutex.
mod Tests
pub mod Output
pub mod Threads
use iot_services_monitoring.Common.{
  ◌-◌, List, [], ◌∷◌, ◌++◌, Option, none, some, take, ℤ, pos, negsuc,
}
use iot_services_monitoring.Text.{Text, codes}
use iot_services_monitoring.Utils.{buffer_size}
use iot_services_monitoring.Config.{max_path_len, log_filename, print_int, concat, snprintf}

-- What has been printed, and what the file that is open holds.
pub record Log : Type 0 where
  pub console : Text
  pub file : Option Text

-- printf("%s\n", line)
abbrev pub with_line : Text → Text → Text
with_line line text = text ++ (line ++ (10 ∷ []))

abbrev pub in_file : Text → Option Text → Option Text
in_file line none = none
in_file line (some text) = some (with_line line text)

unfoldable pub write_log : Text → Log → Log
write_log line l = record { console = with_line line l.console; file = in_file line l.file }

unfoldable pub info_line : Text → Text → Text
unfolding concat
info_line ts message =
    snprintf buffer_size (codes "[" ∷ ts ∷ codes "] [INFO]   MSG=\"" ∷ message ∷ codes "\"" ∷ [])

unfoldable pub sensor_line : Text → Text → ℤ → Text → Text → Text
unfolding concat print_int
sensor_line ts ip port recv_msg resp_msg = snprintf buffer_size (
    codes "["
    ∷ ts
    ∷ codes "] [SENSOR] IP="
    ∷ ip
    ∷ codes " PORT="
    ∷ print_int port
    ∷ codes " RECV=\""
    ∷ recv_msg
    ∷ codes "\" RESP=\""
    ∷ resp_msg
    ∷ codes "\""
    ∷ [])

unfoldable pub http_line : Text → Text → ℤ → Text → Text → Text
unfolding concat print_int
http_line ts ip port request response = snprintf buffer_size (
    codes "["
    ∷ ts
    ∷ codes "] [HTTP]   IP="
    ∷ ip
    ∷ codes " PORT="
    ∷ print_int port
    ∷ codes " REQ=\""
    ∷ request
    ∷ codes "\" RESP=\""
    ∷ response
    ∷ codes "\""
    ∷ [])

unfoldable pub error_line : Text → Text → ℤ → Text → Text
unfolding concat print_int
error_line ts ip port error_msg = snprintf buffer_size (
    codes "["
    ∷ ts
    ∷ codes "] [ERROR]  IP="
    ∷ ip
    ∷ codes " PORT="
    ∷ print_int port
    ∷ codes " MSG=\""
    ∷ error_msg
    ∷ codes "\""
    ∷ [])

-- What the server logs; `ts` is the time of the call.
pub data Entry : Type 0 where
  log_sensor : (ts ip : Text) (port : ℤ) (recv_msg resp_msg : Text) → Entry
  log_http : (ts ip : Text) (port : ℤ) (request response : Text) → Entry
  log_error : (ts ip : Text) (port : ℤ) (error_msg : Text) → Entry
  log_info : (ts message : Text) → Entry

unfoldable pub line_of : Entry → Text
unfolding sensor_line http_line error_line info_line
line_of (log_sensor ts ip port recv_msg resp_msg) = sensor_line ts ip port recv_msg resp_msg
line_of (log_http ts ip port request response) = http_line ts ip port request response
line_of (log_error ts ip port error_msg) = error_line ts ip port error_msg
line_of (log_info ts message) = info_line ts message

-- The calls of several threads, in the order in which they get the mutex.
unfoldable pub log_all : List Entry → Log → Log
unfolding write_log line_of
log_all [] l = l
log_all (e ∷ es) l = log_all es (write_log (line_of e) l)

unfoldable pub log_path : Text → Text
unfolding concat
log_path log_dir = snprintf max_path_len (log_dir ∷ codes "/" ∷ log_filename ∷ [])

-- `opened` is what the file holds that fopen opens for appending, `none` where it fails.
unfoldable pub logger_init : Text → Option Text → Text → Log → Log × ℤ
unfolding concat log_path write_log info_line
logger_init log_dir none ts l = (record l { file = none }, negsuc 0)
logger_init log_dir (some text) ts l = (
  write_log
      (info_line ts (snprintf 256 (codes "Logger inicializado. Archivo: " ∷ log_path log_dir ∷ [])))
      (record l { file = some text }),
  pos 0,
)

unfoldable pub logger_close : Log → Log
logger_close l = record l { file = none }
