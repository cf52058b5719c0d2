-- ===== src/WebSocket/Handshake/Tests.antt =====
-- Runs of the handshake's functions: FIPS 180 for SHA-1, RFC 4648 for Base64, RFC 6455 for the key.
use async_net.Base.{◌≡◌, refl, [], ◌∷◌, bytes}
use async_net.WebSocket.Sha1.{compute}
use async_net.WebSocket.Base64.{base64_encode}
use async_net.WebSocket.Handshake.{compute_accept_key}

sha1_abc :
    compute (bytes "abc")
    ≡ 0xa9 ∷ 0x99 ∷ 0x3e ∷ 0x36 ∷ 0x47 ∷ 0x06 ∷ 0x81 ∷ 0x6a ∷ 0xba ∷ 0x3e ∷ 0x25 ∷ 0x71 ∷ 0x78
      ∷ 0x50 ∷ 0xc2 ∷ 0x6c ∷ 0x9c ∷ 0xd0 ∷ 0xd8 ∷ 0x9d ∷ []
unfolding compute
sha1_abc = refl

base64_foob : base64_encode (bytes "foob") ≡ bytes "Zm9vYg=="
unfolding base64_encode
base64_foob = refl

accept_key_rfc :
    compute_accept_key (bytes "dGhlIHNhbXBsZSBub25jZQ==") ≡ bytes "s3pPLMBiTxaQ9kYGzzhZRbK+xOo="
unfolding compute_accept_key
accept_key_rfc = refl
