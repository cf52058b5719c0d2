-- ===== src/Http2/Hpack/Huffman/Tests.antt =====
-- Runs of the Huffman coder: the strings of RFC 7541, appendix C.4.
use async_net.Base.{◌≡◌, refl, [], ◌∷◌, bytes, true}
use async_net.Http2.Hpack.Huffman.{match_symbol, huffman_encode, huffman_decode, huffman_is_shorter}

encode_www :
    huffman_encode (bytes "www.example.com")
    ≡ 0xf1 ∷ 0xe3 ∷ 0xc2 ∷ 0xe5 ∷ 0xf2 ∷ 0x3a ∷ 0x6b ∷ 0xa0 ∷ 0xab ∷ 0x90 ∷ 0xf4 ∷ 0xff ∷ []
unfolding huffman_encode
encode_www = refl

decode_no_cache : huffman_decode (0xa8 ∷ 0xeb ∷ 0x10 ∷ 0x64 ∷ 0x9c ∷ 0xbf ∷ []) ≡ bytes "no-cache"
unfolding huffman_decode match_symbol
decode_no_cache = refl

-- Padding that is not all ones is refused.
decode_bad_padding : huffman_decode (0xa8 ∷ 0xeb ∷ 0x10 ∷ 0x64 ∷ 0x9c ∷ 0xbe ∷ []) ≡ []
unfolding huffman_decode match_symbol
decode_bad_padding = refl

shorter : huffman_is_shorter (bytes "no-cache") ≡ true
unfolding huffman_is_shorter
shorter = refl
