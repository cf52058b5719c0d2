-- ===== src/Http2/Examples.antt =====
-- The theorems on HTTP/2 and HPACK at concrete inputs.
use async_net.Base.{◌^◌}
use async_net.Http2.Frame.{read_from, write_to}
use async_net.Http2.Frame.RoundTrip.{read_from-write_to}
use async_net.Base.{ℕ, ◌+◌, ◌≡◌, refl, arith, Bool, true, false, ◌&&◌}
use async_net.Base.{List, [], ◌∷◌, ◌++◌, All, IsByte, ltb, ltb→lt, ◌==◌, if◌then◌else◌}
use async_net.Http2.Frame.{build_frame, SettingEntry, parse_settings}
use async_net.Http2.Frame.{build_settings_frame}
use async_net.Http2.Frame.Code.{data_frame, settings}
use async_net.Http2.Frame.Code.{max_frame_size}
use async_net.Http2.Reader.{new_reader, feed}
use async_net.Http2.Reader.Inv.{IsValid, new_reader-IsValid, feed-IsValid}
use async_net.Http2.Reader.Chunks.{feed-append}
use async_net.Http2.Reader.Delivery.{outcome, feed-build_frame}
use async_net.Http2.Reader.Messages.{message, feed-build_settings_frame}

every {ℓ} : {A : Type ℓ} (test : A → Bool) → List A → Bool
every test [] = true
every test (x ∷ xs) = test x && every test xs

every-IsByte : (xs : List ℕ) → every (λ b. ltb b 256) xs ≡ true → All IsByte xs
unfolding every
every-IsByte [] h = tt
every-IsByte (x ∷ xs) h = (ltb→lt x 256 (ground (arith, h)), every-IsByte xs (ground (arith, h)))

-- A header that announces a payload of two bytes, and its first byte; then the second one.
abbrev first_chunk : List ℕ
first_chunk = 0 ∷ 0 ∷ 2 ∷ 0 ∷ 1 ∷ 0 ∷ 0 ∷ 0 ∷ 5 ∷ 104 ∷ []

first_chunk-IsByte : All IsByte first_chunk
unfolding every
first_chunk-IsByte = every-IsByte first_chunk refl

feed-append_example : feed new_reader (first_chunk ++ (105 ∷ 7 ∷ [])) ≡ (
    if (feed new_reader first_chunk).1 == 10
    then (
      (feed (feed new_reader first_chunk).0 (105 ∷ 7 ∷ [])).0,
      (feed new_reader first_chunk).1 + (feed (feed new_reader first_chunk).0 (105 ∷ 7 ∷ [])).1,
    )
    else feed new_reader first_chunk)
feed-append_example =
    feed-append new_reader first_chunk (105 ∷ 7 ∷ []) new_reader-IsValid first_chunk-IsByte

feed-IsValid_example : IsValid (feed new_reader first_chunk).0
feed-IsValid_example = feed-IsValid new_reader first_chunk new_reader-IsValid first_chunk-IsByte

feed-build_frame_example :
    outcome (feed new_reader (build_frame data_frame 1 5 (104 ∷ 105 ∷ []) ++ (7 ∷ []))) ≡ (
      11,
      true,
      record {
        hdr = record { length = 2; type = data_frame; flags = 1; stream_id = 5 };
        payload = 104 ∷ 105 ∷ [];
      },
    )
feed-build_frame_example =
    feed-build_frame new_reader data_frame 1 5 (104 ∷ 105 ∷ []) (7 ∷ []) new_reader-IsValid refl tt
      (omega arith)

abbrev one_setting : List SettingEntry
one_setting = record { id = max_frame_size; value = 16384 } ∷ []

feed-build_settings_frame_example :
    message parse_settings (feed new_reader (build_settings_frame one_setting false ++ (0 ∷ [])))
    ≡ (15, true, settings, 0, one_setting)
feed-build_settings_frame_example =
    feed-build_settings_frame new_reader one_setting (0 ∷ []) new_reader-IsValid refl
      (record { known = tt; fits = omega arith }, tt) (omega arith)

read_from-write_to_example :
    read_from (
      write_to (record { length = 2 ^ 24 + 2; type = settings; flags = 1; stream_id = 2 ^ 31 + 3 })
      ++ [])
    ≡ record { length = 2; type = settings; flags = 1; stream_id = 3 }
read_from-write_to_example =
    read_from-write_to
      (record { length = 2 ^ 24 + 2; type = settings; flags = 1; stream_id = 2 ^ 31 + 3 }) [] tt
