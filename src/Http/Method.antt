-- ===== src/Http/Method.antt =====
-- `method`, `version` and `status_code` of include/async_net/http/types.hpp. A text is the list of
-- its bytes.
use async_net.Base.{List, ◌≡◌, refl, Option, none, some, bytes, bytes_eq, bytes_eq_iff, arith}
use async_net.Base.{if◌then◌else◌, ℕ}

pub data Method : Type 0 where
  get head post put delete_ patch options trace connect : Method

unfoldable pub method_name : Method → List ℕ
method_name get = bytes "GET"
method_name head = bytes "HEAD"
method_name post = bytes "POST"
method_name put = bytes "PUT"
method_name delete_ = bytes "DELETE"
method_name patch = bytes "PATCH"
method_name options = bytes "OPTIONS"
method_name trace = bytes "TRACE"
method_name connect = bytes "CONNECT"

unfoldable pub parse_method : List ℕ → Option Method
parse_method s =
    if bytes_eq s (bytes "GET")
    then some get
    else if bytes_eq s (bytes "HEAD")
    then some head
    else if bytes_eq s (bytes "POST")
    then some post
    else if bytes_eq s (bytes "PUT")
    then some put
    else if bytes_eq s (bytes "DELETE")
    then some delete_
    else if bytes_eq s (bytes "PATCH")
    then some patch
    else if bytes_eq s (bytes "OPTIONS")
    then some options
    else if bytes_eq s (bytes "TRACE")
    then some trace
    else if bytes_eq s (bytes "CONNECT")
    then some connect
    else none

pub data Version : Type 0 where
  http_10 http_11 http_2 http_3 : Version

unfoldable pub version_name : Version → List ℕ
version_name http_10 = bytes "HTTP/1.0"
version_name http_11 = bytes "HTTP/1.1"
version_name http_2 = bytes "HTTP/2"
version_name http_3 = bytes "HTTP/3"

-- A method is parsed from its name.
pub parse_method-method_name : (m : Method) → parse_method (method_name m) ≡ some m
unfolding parse_method method_name bytes_eq
parse_method-method_name get = refl
parse_method-method_name head = refl
parse_method-method_name post = refl
parse_method-method_name put = refl
parse_method-method_name delete_ = refl
parse_method-method_name patch = refl
parse_method-method_name options = refl
parse_method-method_name trace = refl
parse_method-method_name connect = refl

-- No other text is parsed as a method.
pub parse_method_name : (s : List ℕ) (m : Method) → parse_method s ≡ some m → s ≡ method_name m
unfolding parse_method method_name
parse_method_name s m h = ground (
  arith,
  bytes_eq_iff s (bytes "GET"),
  bytes_eq_iff s (bytes "HEAD"),
  bytes_eq_iff s (bytes "POST"),
  bytes_eq_iff s (bytes "PUT"),
  bytes_eq_iff s (bytes "DELETE"),
  bytes_eq_iff s (bytes "PATCH"),
  bytes_eq_iff s (bytes "OPTIONS"),
  bytes_eq_iff s (bytes "TRACE"),
  bytes_eq_iff s (bytes "CONNECT"),
)
