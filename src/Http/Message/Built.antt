-- ===== src/Http/Message/Built.antt =====
-- What the builders of messages promise.
use async_net.Base.{ℕ, ◌^◌, ◌<◌, ◌≢◌, List, [], ◌∷◌, false, some, ◌≡◌, refl}
use async_net.Base.{length, bytes, negsuc}
use async_net.Http.Text.{decimal}
use async_net.Http.Text.Decimal.{from_chars-decimal}
use async_net.Http.Headers.{Headers, content_length, contains, get}
use async_net.Http.Headers.Laws.{get-set_self}
use async_net.Http.Message.{Request, build_request, with_content_length}

content_length-decimal :
    (hdrs : Headers) (n : ℕ)
    → get hdrs (bytes "Content-Length") ≡ some (decimal n)
    → n < 2 ^ 63
    → content_length hdrs ≡ some n
unfolding content_length
content_length-decimal hdrs n e h =
    rw (e, content_length) (rw (from_chars-decimal (2 ^ 63) n (negsuc 0) h))

content_length-with_content_length :
    (hdrs : Headers) (bd : List ℕ)
    → bd ≢ []
    → contains hdrs (bytes "Content-Length") ≡ false
    → length bd < 2 ^ 63
    → content_length (with_content_length hdrs bd) ≡ some (length bd)
unfolding with_content_length
content_length-with_content_length hdrs [] ne c h = absurd (ne refl)
content_length-with_content_length hdrs (x ∷ xs) ne c h =
    rw c (content_length-decimal _ _ (get-set_self hdrs _ _) h)

-- A body that is not empty is announced with its length by a request that had no such field.
content_length-build_request :
    (req : Request)
    → req.bd ≢ []
    → contains req.hdrs (bytes "Content-Length") ≡ false
    → length req.bd < 2 ^ 63
    → content_length (build_request req).hdrs ≡ some (length req.bd)
unfolding build_request
content_length-build_request req = content_length-with_content_length req.hdrs req.bd
