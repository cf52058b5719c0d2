-- ===== src/Http2/Session/Fields.antt =====
-- The loops of `apply_headers` and `apply_response_headers` of src/http/http2_session.cpp on fields
-- that are no pseudo-headers.
use async_net.Base.{ℕ, List, [], ◌∷◌, ◌++◌, Bool, true, false, ◌≡◌, refl, ◌∙◌, arith}
use async_net.Base.{
  bytes, bytes_eq, bytes_eq_iff, All, append_assoc, append-nil, Bool-cases, inl, inr,
}
use async_net.Http.Text.{to_lower, tolower}
use async_net.Http.Method.{http_2}
use async_net.Http.Headers.{Headers}
use async_net.Http.Headers
use async_net.Http.Message.{Request, Response}
use async_net.Http2.Hpack.Entry.{Entry}
use async_net.Http2.Session.Dispatch.{
  is_pseudo, apply_field, apply_fields, apply_response_field, apply_response_fields,
}
use async_net.Http2.Session.Submit.{lowered}

-- Names of which none starts with a colon.
abbrev pub NoPseudo : Headers → Type 0
NoPseudo hs = All (λ (e : Entry). is_pseudo e.name ≡ false) hs

is_pseudo-to_lower : (name : List ℕ) → is_pseudo name ≡ false → is_pseudo (to_lower name) ≡ false
unfolding is_pseudo to_lower tolower
is_pseudo-to_lower [] h = refl
is_pseudo-to_lower (c ∷ cs) h = ground arith

pub lowered-NoPseudo : (p : List ℕ → Bool) (hs : Headers) → NoPseudo hs → NoPseudo (lowered p hs)
unfolding lowered
lowered-NoPseudo p [] h = tt
lowered-NoPseudo p (e ∷ hs) h = elim (Bool-cases (p (to_lower e.name))) [
  | inl out ↦ rw out (lowered-NoPseudo p hs h.1)
  | inr kept ↦ rw kept (is_pseudo-to_lower e.name h.0, lowered-NoPseudo p hs h.1)
]

-- A pseudo-header's name is not the name of a field.
not_pseudo :
    (name literal : List ℕ)
    → is_pseudo name ≡ false
    → is_pseudo literal ≡ true
    → bytes_eq name literal ≡ false
not_pseudo name literal h k = elim (Bool-cases (bytes_eq name literal)) [
  | inl e ↦ let same = (bytes_eq_iff name literal).0 e in cc
  | inr e ↦ e
]

apply_field_plain :
    (target : Request → List ℕ → Request) (req : Request) (e : Entry)
    → is_pseudo e.name ≡ false
    → apply_field target req e ≡ record req { hdrs = req.hdrs ++ (e ∷ []) }
unfolding apply_field Headers.append is_pseudo
apply_field_plain target req e h = rw (not_pseudo e.name (bytes ":method") h refl) (
    rw (not_pseudo e.name (bytes ":path") h refl) (
      rw (not_pseudo e.name (bytes ":scheme") h refl)
        (rw (not_pseudo e.name (bytes ":authority") h refl) (rw h refl))))

pub apply_fields_plain :
    (target : Request → List ℕ → Request) (req : Request) (hs : Headers)
    → NoPseudo hs
    → apply_fields target req hs ≡ record req { hdrs = req.hdrs ++ hs; ver = http_2 }
unfolding apply_fields
apply_fields_plain target req [] h = rw (append-nil req.hdrs)
apply_fields_plain target req (e ∷ hs) h =
    rw (apply_field_plain target req e h.0)
      (apply_fields_plain target _ hs h.1 ∙ rw (append_assoc req.hdrs (e ∷ []) hs))

apply_response_field_plain :
    (resp : Response) (e : Entry)
    → is_pseudo e.name ≡ false
    → apply_response_field resp e ≡ record resp { hdrs = resp.hdrs ++ (e ∷ []) }
unfolding apply_response_field Headers.append is_pseudo
apply_response_field_plain resp e h = rw (not_pseudo e.name (bytes ":status") h refl) (rw h refl)

pub apply_response_fields_plain :
    (resp : Response) (hs : Headers)
    → NoPseudo hs
    → apply_response_fields resp hs ≡ record resp { hdrs = resp.hdrs ++ hs; ver = http_2 }
unfolding apply_response_fields
apply_response_fields_plain resp [] h = rw (append-nil resp.hdrs)
apply_response_fields_plain resp (e ∷ hs) h =
    rw (apply_response_field_plain resp e h.0)
      (apply_response_fields_plain _ hs h.1 ∙ rw (append_assoc resp.hdrs (e ∷ []) hs))
