-- ===== src/Auth.antt =====
-- server/src/auth_client.c: the query to the authentication service. What the network does is data:
-- the outcome of each call, and the bytes that each recv brings.
mod Tests
pub mod Answers
pub mod Results
use iot_services_monitoring.Common.{
  ℕ, ◌-◌, Bool, true, false, not, ◌||◌, List, [], ◌∷◌, ◌++◌, Option, none, some, take, drop, length,
  if◌then◌else◌, ◌==◌, ◌>>=◌,
}
use iot_services_monitoring.Text.{Text, codes, strstr, strchr, before}
use iot_services_monitoring.Utils.{buffer_size}
use iot_services_monitoring.State.{copy_text}
use iot_services_monitoring.Config.{ServerConfig, print_int, concat, snprintf}

-- The C ints `exists` and `error` hold 0 or 1 only.
pub record AuthResult : Type 0 where
  pub exists : Bool
  pub role : Text
  pub error : Bool
  pub error_msg : Text

abbrev pub role_size : ℕ
role_size = 32

abbrev pub error_msg_size : ℕ
error_msg_size = 128

-- getaddrinfo: `none` for success, else the text of gai_strerror. The others: whether the call
-- succeeds. recv: what is there at each call, nothing when the peer has closed; past the end of the
-- list the call fails.
pub record Network : Type 0 where
  pub getaddrinfo : Option Text
  pub socket_ok : Bool
  pub connect_ok : Bool
  pub send_ok : Bool
  pub recv : List Text

abbrev pub zeroed : AuthResult
zeroed = record { exists = false; role = []; error = false; error_msg = [] }

unfoldable pub failure : List Text → AuthResult
unfolding concat
failure parts = record zeroed { error = true; error_msg = snprintf error_msg_size parts }

-- The reading loop with `room` bytes left.
unfoldable pub read_response : ℕ → List Text → Text
read_response room [] = []
read_response room ([] ∷ chunks) = []
read_response room ((c ∷ cs) ∷ chunks) =
    let rest = read_response (room - length (c ∷ cs)) chunks in
    if room == 0 then [] else take room (c ∷ cs) ++ rest

-- `strchr(s, k) + 1`
abbrev pub behind : ℕ → Text → Option Text
behind k s = do found ← strchr s k; some (drop 1 found)

-- The text between the first quotes behind the colon of "role":.
unfoldable pub find_role : Text → Option Text
unfolding strstr strchr before
find_role body = do
  role_start ← strstr body (codes "\"role\":")
  value ← behind b':' role_start
  quote1 ← behind b'"' value
  quote2 ← strchr quote1 b'"'
  some (before b'"' quote1)

abbrev pub copied_role : Option Text → Text
copied_role none = []
copied_role (some role) = copy_text role role_size

abbrev pub is_some : Option Text → Bool
is_some none = false
is_some (some _) = true

unfoldable pub parse_body : Text → AuthResult
unfolding strstr find_role
parse_body body =
    if is_some (strstr body (codes "\"exists\": true"))
      || is_some (strstr body (codes "\"exists\":true"))
    then record zeroed { exists = true; role = copied_role (find_role body) }
    else zeroed

abbrev crlf2 : Text
crlf2 = 13 ∷ 10 ∷ 13 ∷ 10 ∷ []

-- The response, whose bytes are a C string up to the first NUL.
unfoldable pub parse_response : Text → AuthResult
unfolding strstr before parse_body
parse_response [] = failure (codes "Empty response from auth service" ∷ [])
parse_response (c ∷ cs) = elim (strstr (before 0 (c ∷ cs)) crlf2) [
  | none ↦ failure (codes "Invalid HTTP response from auth service" ∷ [])
  | some found ↦ parse_body (drop 4 found)
]

-- What is sent.
unfoldable pub auth_request : ServerConfig → Text → Text
unfolding concat
auth_request config username = snprintf buffer_size (
    codes "GET /auth?user="
    ∷ username
    ∷ codes " HTTP/1.1\r\nHost: "
    ∷ config.auth_host
    ∷ codes "\r\nConnection: close\r\n\r\n"
    ∷ [])

-- The calls from getaddrinfo on.
unfoldable pub query : ServerConfig → Network → AuthResult
unfolding concat print_int read_response parse_response
query config net = elim net.getaddrinfo [
  | some reason ↦
      failure (codes "DNS resolution failed for " ∷ config.auth_host ∷ codes ": " ∷ reason ∷ [])
  | none ↦
      if not net.socket_ok
      then failure (codes "Cannot create socket for auth" ∷ [])
      else if not net.connect_ok
      then failure (
          codes "Cannot connect to auth service at "
          ∷ config.auth_host
          ∷ codes ":"
          ∷ print_int config.auth_port
          ∷ [])
      else if not net.send_ok
      then failure (codes "Failed to send auth request" ∷ [])
      else parse_response (read_response (buffer_size - 1) net.recv)
]

-- A NULL username is `none`.
unfoldable pub auth_check_user : ServerConfig → Network → Option Text → AuthResult
unfolding query
auth_check_user config net none = failure (codes "Empty username" ∷ [])
auth_check_user config net (some []) = failure (codes "Empty username" ∷ [])
auth_check_user config net (some (c ∷ cs)) = query config net
