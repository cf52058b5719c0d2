-- ===== src/Http3/Frame/RoundTrip.antt =====
-- What the parsers of src/http/h3_frame.hpp read back from what the builders wrote.
use async_net.Base.{
  ℕ, zero, suc, ◌+◌, ◌^◌, ◌≤◌, ◌<◌, ◌≡◌, refl, ap, ◌∙◌, arith, List, [], ◌∷◌, ◌++◌,
}
use async_net.Base.{some, length, length-append, drop, drop-append_eq, All, ltb, ltb_ge, lt→ltb}
use async_net.Base.{true, false, if◌then◌else◌}
use async_net.Http3.Varint.{varint, decode_varint}
use async_net.Http3.Varint.RoundTrip.{decode_varint-varint}
use async_net.Http3.Frame.{
  SettingEntry, settings_payload, settings_loop, parse_settings, push_promise_payload,
}
use async_net.Http3.Frame.{parse_push_promise, parse_goaway}

-- A value that a QUIC integer can hold.
abbrev pub IsVarint : ℕ → Type 0
IsVarint v = v < 2 ^ 62

pub record IsSetting (s : SettingEntry) : Type 0 where
  pub id_fits : IsVarint s.id
  pub value_fits : IsVarint s.value

settings_loop_step :
    (fuel : ℕ) (input : List ℕ) (id n value k : ℕ)
    → 0 < length input
    → decode_varint input ≡ some (id, n)
    → decode_varint (drop n input) ≡ some (value, k)
    → settings_loop (suc fuel) input
      ≡ record { id = id; value = value } ∷ settings_loop fuel (drop k (drop n input))
unfolding settings_loop
settings_loop_step fuel [] id n value k h e e' = absurd (omega arith)
settings_loop_step fuel (b ∷ bs) id n value k h e e' = rw (e, settings_loop) (rw e' refl)

settings_loop-settings_payload :
    (fuel : ℕ) (es : List SettingEntry)
    → All IsSetting es
    → length (settings_payload es) ≤ fuel
    → settings_loop fuel (settings_payload es) ≡ es
unfolding settings_payload
settings_loop-settings_payload zero [] v h = unfold settings_loop in refl
settings_loop-settings_payload (suc fuel) [] v h = unfold settings_loop in refl
settings_loop-settings_payload zero (e ∷ es) v h =
    let (_, pos, _) = decode_varint-varint e.id [] v.0.id_fits in
    absurd (omega (arith, pos, length-append (varint e.id) (varint e.value ++ settings_payload es)))
settings_loop-settings_payload (suc fuel) (e ∷ es) v h =
    let later = settings_payload es in
    let rest = varint e.value ++ later in
    let (first, pos, _) = decode_varint-varint e.id rest v.0.id_fits in
    let (second, _, _) = decode_varint-varint e.value later v.0.value_fits in
    let size = length-append (varint e.id) rest in
    let size' = length-append (varint e.value) later in
    let cut : drop (length (varint e.id)) (varint e.id ++ rest) ≡ rest =
      drop-append_eq (varint e.id) rest (length (varint e.id)) refl in
    let cut' : drop (length (varint e.value)) rest ≡ later =
      drop-append_eq (varint e.value) later (length (varint e.value)) refl in
    settings_loop_step fuel (varint e.id ++ rest) e.id (length (varint e.id)) e.value
      (length (varint e.value)) (omega (arith, pos, size)) first (ap decode_varint cut ∙ second)
    ∙ ap (λ t. e ∷ settings_loop fuel t) (ap (drop (length (varint e.value))) cut ∙ cut')
    ∙ ap (λ t. e ∷ t) (settings_loop-settings_payload fuel es v.1 (omega (arith, pos, size, size')))

-- `parse_settings` gives back the settings whose payload was built. Each number is below 2^62.
parse_settings-payload :
    (es : List SettingEntry) → All IsSetting es → parse_settings (settings_payload es) ≡ es
unfolding parse_settings
parse_settings-payload es v =
    settings_loop-settings_payload (length (settings_payload es)) es v (omega arith)

-- The block behind the push id.
block_found :
    (block : List ℕ) (n : ℕ) (input : List ℕ)
    → drop n input ≡ block
    → length input ≡ n + length block
    → (if ltb n (length input) then drop n input else []) ≡ block
block_found [] n input cut size =
    let none_left : ltb n (length input) ≡ false = ltb_ge n (length input) (omega arith) in
    rw none_left refl
block_found (b ∷ bs) n input cut size =
    let some_left : ltb n (length input) ≡ true = lt→ltb n (length input) (omega arith) in
    rw some_left cut

-- `parse_goaway` gives back a stream id below 2^62, whatever follows it.
pub parse_goaway-varint :
    (stream_id : ℕ) (rest : List ℕ)
    → IsVarint stream_id
    → parse_goaway (varint stream_id ++ rest) ≡ some stream_id
unfolding parse_goaway
parse_goaway-varint stream_id rest h =
    let (read, _, _) = decode_varint-varint stream_id rest h in rw (read, parse_goaway) refl

-- `parse_push_promise` gives back the push id, below 2^62, and the header block that were put into a
-- PUSH_PROMISE frame.
parse_push_promise-payload :
    (push_id : ℕ) (block : List ℕ)
    → IsVarint push_id
    → parse_push_promise (push_promise_payload push_id block)
      ≡ record { push_id = push_id; header_block = block }
unfolding parse_push_promise push_promise_payload
parse_push_promise-payload push_id block h =
    let (read, _, _) = decode_varint-varint push_id block h in
    let n = length (varint push_id) in
    let cut = drop-append_eq (varint push_id) block n refl in
    rw (read, parse_push_promise)
      (ap (λ b. record { push_id = push_id; header_block = b })
        (block_found block n (varint push_id ++ block) cut (length-append (varint push_id) block)))
