-- ===== src/Http/Examples.antt =====
-- Tests and instances for include/async_net/http/types.hpp.
use async_net.Base.{arith, refl}
use async_net.Http.Message.{new_request}
use async_net.Base.{[], ◌∷◌, ◌≡◌, bytes, bytes_eq}
use async_net.Http.Headers.{set, get_all, Headers}
use async_net.Http.Headers.Laws.{get_all-set}
use async_net.Http.Text.{to_lower, decimal}
use async_net.Http.Uri.{set_rest, split_at_text, set_authority, new_uri, parse, query_param}
use async_net.Http.Uri.Parts.{UrlParts, url_text, are_url_parts, parse-url_text}
use async_net.Http2.Hpack.Entry.{entry}

abbrev some_headers : Headers
some_headers = entry (bytes "Accept") (bytes "a") ∷ entry (bytes "accept") (bytes "b") ∷ []

get_all-set_example :
    get_all (set some_headers (bytes "ACCEPT") (bytes "c")) (bytes "accept") ≡ bytes "c" ∷ []
unfolding get_all to_lower bytes_eq
get_all-set_example = get_all-set some_headers (bytes "ACCEPT") (bytes "c") (bytes "accept")

abbrev some_parts : UrlParts
some_parts = record {
  scheme = bytes "https";
  host = bytes "h";
  port = 8080;
  path = bytes "a";
  query = bytes "b=c";
  fragment = bytes "d";
}

parse-url_text_example : parse new_uri (url_text some_parts) ≡ record {
  raw = bytes "https://h:8080/a?b=c#d";
  scheme = bytes "https";
  host = bytes "h";
  port = 8080;
  path = bytes "/a";
  query = bytes "b=c";
  fragment = bytes "d";
}
unfolding are_url_parts decimal
parse-url_text_example = parse-url_text new_uri some_parts refl (omega arith)

default_port : parse new_uri (bytes "https://h/a") ≡ record new_uri {
  raw = bytes "https://h/a";
  scheme = bytes "https";
  host = bytes "h";
  port = 443;
  path = bytes "/a";
}
unfolding parse set_rest split_at_text bytes_eq set_authority
default_port = refl

second_parameter :
    query_param (record new_request { query = bytes "a=1&b=2&c=3" }) (bytes "b") ≡ bytes "2"
unfolding query_param bytes_eq
second_parameter = refl

-- A parameter whose name ends in the key is taken for it.
parameter_with_longer_name :
    query_param (record new_request { query = bytes "ab=1&b=2" }) (bytes "b") ≡ bytes "1"
unfolding query_param bytes_eq
parameter_with_longer_name = refl

address_in_brackets : (parse new_uri (bytes "http://[::1]/")).host ≡ bytes "[:"
unfolding parse set_rest split_at_text bytes_eq set_authority
address_in_brackets = refl
