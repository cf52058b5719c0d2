-- ===== src/Http2/Session/Messages.antt =====
-- A message from the fields that its sender writes to the fields that its receiver reads, in
-- src/http/http2_session.cpp.
use async_net.Http2.Session.Fields.{
  NoPseudo, lowered-NoPseudo, apply_fields_plain, apply_response_fields_plain,
}
use async_net.Base.{ℕ, ◌^◌, ◌<◌, List, [], ◌∷◌, ◌++◌, true, false, ◌≡◌, refl, ap, ◌∙◌, arith}
use async_net.Base.{bytes, is_empty, length, if◌then◌else◌, ℤ, pos}
use async_net.Http.Text.{decimal, decimal_int, from_chars}
use async_net.Http.Text.Decimal.{from_chars-decimal}
use async_net.Http.Method.{Method, http_2, parse_method-method_name, method_name}
use async_net.Http.Headers.{Headers}
use async_net.Http.Headers
use async_net.Http.Message.{Request, new_request, Response, new_response, set_target}
use async_net.Http2.Hpack.Entry.{Entry, entry}
use async_net.Http2.Session.Dispatch.{
  is_pseudo, apply_field, apply_fields, apply_response_field, apply_response_fields,
}
use async_net.Base.{map, ap₂, suc}
use async_net.Http.Text.Searching.{lacks}
use async_net.Http.Headers.Laws.{get-get_all, first}
use async_net.Http.Message.Targets.{
  target_text, to_send, set_target-target_text, is_empty-target_text,
}
use async_net.Http2.Session.Delivered.{
  without, lower_name, request_names, response_names, lowered-request_names, lowered-response_names,
}
use async_net.Http2.Session.Submit.{
  lowered, request_left_out, response_left_out, request_fields, status_fields, response_fields,
  or_else, optional_field,
}

set_target-hdrs : (req : Request) (target : List ℕ) → (set_target req target).hdrs ≡ req.hdrs
unfolding set_target
set_target-hdrs req target = ground arith

-- The host that a request names, or the default.
abbrev pub host_of : Request → List ℕ
host_of req = or_else (Headers.get req.hdrs (bytes "Host")) (bytes "localhost")

abbrev with_host : List ℕ → Request → Request
with_host host req = record req { hdrs = Headers.append req.hdrs (bytes "Host") host }

apply_field_method :
    (target : Request → List ℕ → Request) (req : Request) (m : Method)
    → apply_field target req (entry (bytes ":method") (method_name m)) ≡ record req { method = m }
unfolding apply_field
apply_field_method target req m = rw (parse_method-method_name m)

apply_fields-request_fields_lem :
    (req : Request)
    → NoPseudo req.hdrs
    → apply_fields set_target new_request (request_fields req)
      ≡ record (set_target
          (record new_request { method = req.method })
          (if is_empty req.path then b'/' ∷ [] else req.path)) {
            hdrs = entry (bytes "Host") (host_of req) ∷ lowered request_left_out req.hdrs;
            ver = http_2;
          }
unfolding request_fields apply_fields apply_field Headers.append
apply_fields-request_fields_lem req h =
    let target = if is_empty req.path then b'/' ∷ [] else req.path in
    let others = lowered request_left_out req.hdrs in
    let asked = set_target (record new_request { method = req.method }) target in
    ap
      (λ (r : Request).
        apply_fields set_target (with_host (host_of req) (set_target r target)) others)
      (apply_field_method set_target new_request req.method)
    ∙ apply_fields_plain set_target (with_host (host_of req) asked) others
        (lowered-NoPseudo request_left_out req.hdrs h)
    ∙ ap
        (λ hs. record asked {
          hdrs = (hs ++ (entry (bytes "Host") (host_of req) ∷ [])) ++ others;
          ver = http_2;
        })
        (set_target-hdrs (record new_request { method = req.method }) target)

-- The host that a message names first, or the default.
abbrev pub named_host : List (List ℕ) → List ℕ
named_host [] = bytes "localhost"
named_host (host ∷ hosts) = host

or_else-first :
    (hosts : List (List ℕ)) → or_else (first hosts) (bytes "localhost") ≡ named_host hosts
or_else-first [] = refl
or_else-first (host ∷ hosts) = refl

host_of-get_all :
    (req : Request) → host_of req ≡ named_host (Headers.get_all req.hdrs (bytes "Host"))
host_of-get_all req =
    ap (λ host. or_else host (bytes "localhost")) (get-get_all req.hdrs (bytes "Host"))
    ∙ or_else-first (Headers.get_all req.hdrs (bytes "Host"))

path_or_root :
    (target : List ℕ)
    → is_empty target ≡ false
    → (if is_empty target then b'/' ∷ [] else target) ≡ target
path_or_root target h = rw h refl

-- The request that a server makes of the fields that a client writes, for a request with a path that
-- is not empty and has no '?', with its query behind the path, and with field names that are no
-- pseudo-headers. It has the method, the path and the query, as the field "Host" the host that the
-- client named first or "localhost", and the other fields in their order with the names in lower
-- case, without "host" and "connection".
pub apply_fields-request_fields :
    (req : Request)
    → NoPseudo req.hdrs
    → is_empty req.path ≡ false
    → lacks b'?' req.path ≡ true
    → apply_fields set_target new_request (request_fields (to_send req)) ≡ record {
      method = req.method;
      path = req.path;
      query = req.query;
      ver = http_2;
      hdrs =
          entry (bytes "Host") (named_host (Headers.get_all req.hdrs (bytes "Host")))
          ∷ without request_names (map lower_name req.hdrs);
      bd = [];
    }
apply_fields-request_fields req h ne hq =
    apply_fields-request_fields_lem (to_send req) h
    ∙ ap
        (λ (target : List ℕ).
          record (set_target (record new_request { method = req.method }) target) {
            hdrs = entry (bytes "Host") (host_of req) ∷ lowered request_left_out req.hdrs;
            ver = http_2;
          })
        (path_or_root (target_text req.path req.query) (is_empty-target_text req.path req.query ne))
    ∙ ap₂ (λ (r : Request) (hs : Headers). record r { hdrs = hs; ver = http_2 })
        (set_target-target_text (record new_request { method = req.method }) req.path req.query refl
          ne hq)
        (ap₂ (λ (host : List ℕ) (others : Headers). entry (bytes "Host") host ∷ others)
          (host_of-get_all req) (lowered-request_names req.hdrs))

-- The fields of a response behind its status.
abbrev sent_fields : Response → List Entry
sent_fields resp =
    optional_field (bytes "content-type") (Headers.get resp.hdrs (bytes "Content-Type"))
    ++ ((if is_empty resp.bd
          then []
          else entry (bytes "content-length") (decimal (length resp.bd)) ∷ [])
        ++ lowered response_left_out resp.hdrs)

sent_fields-NoPseudo : (resp : Response) → NoPseudo resp.hdrs → NoPseudo (sent_fields resp)
unfolding is_pseudo
sent_fields-NoPseudo resp h =
    let rest = lowered-NoPseudo response_left_out resp.hdrs h in ground (arith, rest)

from_chars-decimal_int :
    (z : ℤ) (n : ℕ) → z ≡ pos n → n < 2 ^ 31 → from_chars (2 ^ 31) (decimal_int z) (pos 0) ≡ z
unfolding decimal_int
from_chars-decimal_int z n e h = rw e (from_chars-decimal (2 ^ 31) n (pos 0) h)

apply_response_fields-response_fields_lem :
    (resp : Response) (code : ℕ)
    → resp.status ≡ pos code
    → code < 2 ^ 31
    → NoPseudo resp.hdrs
    → apply_response_fields new_response (response_fields resp)
      ≡ record new_response { status = resp.status; ver = http_2; hdrs = sent_fields resp }
unfolding response_fields status_fields apply_response_fields apply_response_field
apply_response_fields-response_fields_lem resp code e lt h =
    ap (λ s. apply_response_fields (record new_response { status = s }) (sent_fields resp))
      (from_chars-decimal_int resp.status code e lt)
    ∙ apply_response_fields_plain (record new_response { status = resp.status }) (sent_fields resp)
        (sent_fields-NoPseudo resp h)

-- The first of the values under a name.
abbrev first_field : List ℕ → List (List ℕ) → Headers
first_field name [] = []
first_field name (value ∷ values) = entry name value ∷ []

-- The length of a body, if there is one.
abbrev length_field : List ℕ → Headers
length_field [] = []
length_field (b ∷ bs) = entry (bytes "content-length") (decimal (suc (length bs))) ∷ []

-- The fields that a client is to receive of a response.
abbrev pub received_fields : Response → Headers
received_fields resp =
    first_field (bytes "content-type") (Headers.get_all resp.hdrs (bytes "Content-Type"))
    ++ (length_field resp.bd ++ without response_names (map lower_name resp.hdrs))

optional_field-first :
    (name : List ℕ) (values : List (List ℕ))
    → optional_field name (first values) ≡ first_field name values
optional_field-first name [] = refl
optional_field-first name (value ∷ values) = refl

length_field-is_empty :
    (bd : List ℕ)
    → (if is_empty bd then [] else entry (bytes "content-length") (decimal (length bd)) ∷ [])
      ≡ length_field bd
length_field-is_empty [] = refl
length_field-is_empty (b ∷ bs) = refl

sent_fields-received_fields : (resp : Response) → sent_fields resp ≡ received_fields resp
sent_fields-received_fields resp =
    ap₂ (λ (xs : Headers) (ys : Headers). xs ++ ys)
      (ap (optional_field (bytes "content-type")) (get-get_all resp.hdrs (bytes "Content-Type"))
        ∙ optional_field-first (bytes "content-type")
            (Headers.get_all resp.hdrs (bytes "Content-Type")))
      (ap₂ (λ (xs : Headers) (ys : Headers). xs ++ ys) (length_field-is_empty resp.bd)
        (lowered-response_names resp.hdrs))

-- The response that a client makes of the fields that a server writes for a response with a code
-- below 2^31 and field names that are no pseudo-headers. It has the status, and as fields the first
-- type of the content if there is one, the length of a body that is not empty, and the other fields
-- in their order with the names in lower case, without "content-type", "content-length",
-- "connection" and "transfer-encoding".
pub apply_response_fields-response_fields :
    (resp : Response) (code : ℕ)
    → resp.status ≡ pos code
    → code < 2 ^ 31
    → NoPseudo resp.hdrs
    → apply_response_fields new_response (response_fields resp) ≡ record {
      status = resp.status;
      ver = http_2;
      hdrs = received_fields resp;
      bd = [];
      trailers = [];
    }
apply_response_fields-response_fields resp code e lt h =
    apply_response_fields-response_fields_lem resp code e lt h
    ∙ ap (λ hs. record new_response { status = resp.status; ver = http_2; hdrs = hs })
        (sent_fields-received_fields resp)
