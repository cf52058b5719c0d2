-- ===== src/Http3/Examples.antt =====
-- The theorems on HTTP/3 at concrete inputs.
use async_net.Base.{◌≤◌, ◌<◌, ◌≡◌, refl, arith, List, [], ◌∷◌, ◌++◌, some, length, true, false}
use async_net.Http3.Varint.{varint, decode_varint}
use async_net.Http3.Varint.RoundTrip.{decode_varint-varint}
use async_net.Http3.Frame.{SettingEntry, build_frame}
use async_net.Http3.Reader.{new_reader, feed, has_frame, take_frame}
use async_net.Http3.Reader.Delivery.{IsFresh, outcome, feed-build_frame_lem, feed-build_frame_empty}

decode_varint-varint_example :
    (decode_varint (varint 15293 ++ (9 ∷ [])) ≡ some (15293, length (varint 15293)))
    × (0 < length (varint 15293))
    × (length (varint 15293) ≤ 8)
decode_varint-varint_example = decode_varint-varint 15293 (9 ∷ []) (omega arith)

abbrev one_setting : List SettingEntry
one_setting = record { id = 6; value = 65536 } ∷ []

new_reader-IsFresh : IsFresh new_reader
new_reader-IsFresh = record { between = refl; pending = refl; no_bytes = refl; buffer = refl }

feed-build_frame_lem_example :
    (outcome (feed new_reader (build_frame 1 (5 ∷ 6 ∷ []) ++ (0 ∷ [])))
      ≡ (length (build_frame 1 (5 ∷ 6 ∷ [])), true, record { type = 1; payload = 5 ∷ 6 ∷ [] }))
    × IsFresh (take_frame (feed new_reader (build_frame 1 (5 ∷ 6 ∷ []) ++ (0 ∷ []))).0).1
feed-build_frame_lem_example =
    feed-build_frame_lem new_reader 1 (5 ∷ 6 ∷ []) (0 ∷ []) new_reader-IsFresh (omega arith)
      (omega arith) (omega arith)

feed-build_frame_empty_example :
    ((feed new_reader (build_frame 4 [])).1 ≡ length (build_frame 4 []))
    × (has_frame (feed new_reader (build_frame 4 [])).0 ≡ false)
feed-build_frame_empty_example =
    feed-build_frame_empty new_reader 4 new_reader-IsFresh (omega arith)
