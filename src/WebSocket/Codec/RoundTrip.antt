-- ===== src/WebSocket/Codec/RoundTrip.antt =====
-- `parse_frame` on what `encode_frame` and a client write.
use async_net.Base.{ℕ, ◌+◌, ◌%◌, ◌^◌, ◌≤◌, ◌<◌, ◌≡◌, refl, ap, sym, ◌∙◌, arith}
use async_net.Base.{List, [], ◌∷◌, ◌++◌, append_assoc, length, length-append, at, All, IsByte}
use async_net.Base.{drop-append_eq, take-append_eq, ltb, leb, ltb_ge, leb_gt}
use async_net.Base.{if◌then◌else◌, ◌==◌, not, Bool, true, false, inl, inr, ◌⊎◌, some}
use async_net.Base.{bit_and, and_0x80}
use async_net.WebSocket.Frame.{Opcode, opcode_of, first_byte, length_bytes, read_length}
use async_net.WebSocket.Frame.{read_mask, unmask, parsed, take_payload, parse_frame, encode_frame}
use async_net.WebSocket.Codec.Masking.{
  mask_payload, mask_payload-unmask, length-unmask, unmask_twice,
}
use async_net.WebSocket.Codec.Header.{
  IsOpcode, first_byte_read, with_mask, short, middle, long, form,
}
use async_net.WebSocket.Codec.Header.{read_length-length_bytes}

mask_bit :
    (b0 m n : ℕ) (t : List ℕ)
    → (m ≡ 0) ⊎ (m ≡ 128)
    → bit_and (at (b0 ∷ (with_mask m (length_bytes n) ++ t)) 1) 0x80 ≡ m
unfolding with_mask
mask_bit b0 m n t bit =
    let top : (x : ℕ) → x < 128 → bit_and (x + m) 0x80 ≡ m = λ x h. elim bit [
      | inl e ↦ omega (arith, and_0x80 (x + m) (omega arith))
      | inr e ↦ omega (arith, and_0x80 (x + m) (omega arith))
    ] in
    elim (form n) [
      | short low shape ↦ rw shape (top n (omega arith))
      | middle above low shape ↦ rw shape (top 126 (omega arith))
      | long above shape ↦ rw shape (top 127 (omega arith))
    ]

pub length-with_mask : (m n : ℕ) → length (with_mask m (length_bytes n)) ≡ length (length_bytes n)
unfolding with_mask
length-with_mask m n = elim (form n) [
  | short low shape ↦ rw shape refl
  | middle above low shape ↦ rw shape refl
  | long above shape ↦ rw shape refl
]

length-length_bytes : (n : ℕ) → (0 < length (length_bytes n)) × (length (length_bytes n) ≤ 9)
length-length_bytes n = elim (form n) [
  | short low shape ↦ rw shape (omega arith, omega arith)
  | middle above low shape ↦ rw shape (omega arith, omega arith)
  | long above shape ↦ rw shape (omega arith, omega arith)
]

-- What the parser reads of its input, part by part.
pub parse_frame_parts :
    (input : List ℕ) (m n pos pos' : ℕ) (key : List ℕ) (fin : Bool) (op : Opcode)
    → ltb (length input) 2 ≡ false
    → bit_and (at input 1) 0x80 ≡ m
    → read_length input (bit_and (at input 1) 0x7F) ≡ some (n, pos)
    → read_mask input (not (m == 0)) pos ≡ some (key, pos')
    → opcode_of (bit_and (at input 0) 0x0F) ≡ op
    → not (bit_and (at input 0) 0x80 == 0) ≡ fin
    → parse_frame input ≡ take_payload input fin op (not (m == 0)) key pos' n
unfolding parse_frame
parse_frame_parts input m n pos pos' key fin op two top len mask named final =
    let mask' : read_mask input (not (bit_and (at input 1) 0x80 == 0)) pos ≡ some (key, pos') =
      ap (λ k. read_mask input (not (k == 0)) pos) top ∙ mask in
    rw two (
      rw len (
        rw mask'
          (rw (named, final) (ap (λ k. take_payload input fin op (not (k == 0)) key pos' n) top))))

with_mask-zero : (bs : List ℕ) → with_mask 0 bs ≡ bs
unfolding with_mask
with_mask-zero [] = refl
with_mask-zero (b ∷ bs) = ap (λ x. x ∷ bs) (omega arith)

-- The parser behind the header: the mask is read next, then the payload.
parse_frame_header :
    (op : Opcode) (fin : Bool) (m n : ℕ) (t key : List ℕ) (pos : ℕ)
    → IsOpcode op
    → n < 2 ^ 64
    → (m ≡ 0) ⊎ (m ≡ 128)
    → read_mask
        (first_byte op fin ∷ (with_mask m (length_bytes n) ++ t))
        (not (m == 0))
        (1 + length (length_bytes n))
      ≡ some (key, pos)
    → parse_frame (first_byte op fin ∷ (with_mask m (length_bytes n) ++ t))
      ≡ take_payload
          (first_byte op fin ∷ (with_mask m (length_bytes n) ++ t))
          fin
          op
          (not (m == 0))
          key
          pos
          n
parse_frame_header op fin m n t key pos h hn bit mask =
    let b0 = first_byte op fin in
    let input = b0 ∷ (with_mask m (length_bytes n) ++ t) in
    let (named, final) = first_byte_read op fin h in
    let (some_byte, _) = length-length_bytes n in
    let two : ltb (length input) 2 ≡ false = ltb_ge _ _ (
      omega
        (arith, length-append (with_mask m (length_bytes n)) t, length-with_mask m n, some_byte)) in
    parse_frame_parts input m n (1 + length (length_bytes n)) pos key fin op two
      (mask_bit b0 m n t bit) (read_length-length_bytes b0 m n t hn bit) mask named final

-- The payload at its place.
take_payload_found :
    (pre raw rest : List ℕ) (fin : Bool) (op : Opcode) (masked : Bool) (key : List ℕ) (pos n : ℕ)
    → length pre ≡ pos
    → length raw ≡ n
    → pos + n < 2 ^ 64
    → take_payload (pre ++ (raw ++ rest)) fin op masked key pos n
      ≡ parsed
          (record {
            fin = fin;
            op = op;
            masked = masked;
            payload = if masked then unmask key 0 raw else raw;
          })
          (pos + n)
unfolding take_payload
take_payload_found pre raw rest fin op masked key pos n hp hr h =
    let total : ltb (length (pre ++ (raw ++ rest))) ((pos + n) % 2 ^ 64) ≡ false =
      ltb_ge _ _ (omega (arith, length-append pre (raw ++ rest), length-append raw rest)) in
    let fits : leb (2 ^ 64) (pos + n) ≡ false = leb_gt _ _ h in
    rw
      (
        total,
        fits,
        drop-append_eq pre (raw ++ rest) pos (omega arith),
        take-append_eq raw rest n (omega arith),
      )
      refl

encode_frame_split :
    (op : Opcode) (payload : List ℕ) (fin : Bool) (rest : List ℕ)
    → encode_frame op payload fin ++ rest
      ≡ first_byte op fin ∷ (with_mask 0 (length_bytes (length payload)) ++ (payload ++ rest))
unfolding encode_frame
encode_frame_split op payload fin rest =
    let lb = length_bytes (length payload) in
    ap (λ t. first_byte op fin ∷ t)
      (append_assoc lb payload rest ∙ ap (λ l. l ++ (payload ++ rest)) (sym (with_mask-zero lb)))

length-encode_frame :
    (op : Opcode) (payload : List ℕ) (fin : Bool)
    → length (encode_frame op payload fin)
      ≡ 1 + length (length_bytes (length payload)) + length payload
unfolding encode_frame
length-encode_frame op payload fin =
    omega (arith, length-append (length_bytes (length payload)) payload)

-- A server's frame, which has no mask, is parsed to what it was built from, and just its bytes are
-- consumed. The opcode has four bits and the payload is shorter than 2^63 bytes.
pub parse_frame-encode_frame :
    (op : Opcode) (payload : List ℕ) (fin : Bool) (rest : List ℕ)
    → IsOpcode op
    → length payload < 2 ^ 63
    → parse_frame (encode_frame op payload fin ++ rest)
      ≡ parsed
          (record { fin = fin; op = op; masked = false; payload = payload })
          (length (encode_frame op payload fin))
unfolding read_mask
parse_frame-encode_frame op payload fin rest h small =
    let lb = length_bytes (length payload) in
    let zeros : List ℕ = 0 ∷ 0 ∷ 0 ∷ 0 ∷ [] in
    let (_, nine) = length-length_bytes (length payload) in
    rw (encode_frame_split op payload fin rest, length-encode_frame op payload fin)
      (parse_frame_header op fin 0 (length payload) (payload ++ rest) zeros (1 + length lb) h
          (omega arith) (inl refl) refl
        ∙ take_payload_found (first_byte op fin ∷ with_mask 0 lb) payload rest fin op false zeros
            (1 + length lb) (length payload) (omega (arith, length-with_mask 0 (length payload)))
            refl (omega (arith, nine)))

-- A frame of a client, masked as the parser unmasks it.
abbrev coded_frame : List ℕ → Opcode → List ℕ → Bool → List ℕ
coded_frame key op payload fin =
    first_byte op fin
    ∷ (with_mask 128 (length_bytes (length payload)) ++ (key ++ unmask key 0 payload))

coded_frame_split :
    (key : List ℕ) (op : Opcode) (payload : List ℕ) (fin : Bool) (rest : List ℕ)
    → coded_frame key op payload fin ++ rest
      ≡ first_byte op fin
        ∷ (with_mask 128 (length_bytes (length payload)) ++ (key ++ (unmask key 0 payload ++ rest)))
coded_frame_split key op payload fin rest =
    let l = with_mask 128 (length_bytes (length payload)) in
    let body = unmask key 0 payload in
    ap (λ t. first_byte op fin ∷ t)
      (append_assoc l (key ++ body) rest ∙ ap (λ t. l ++ t) (append_assoc key body rest))

length-coded_frame :
    (key : List ℕ) (op : Opcode) (payload : List ℕ) (fin : Bool)
    → length key ≡ 4
    → length (coded_frame key op payload fin)
      ≡ 1 + length (length_bytes (length payload)) + 4 + length payload
length-coded_frame key op payload fin four = omega (
  arith,
  length-append (with_mask 128 (length_bytes (length payload))) (key ++ unmask key 0 payload),
  length-append key (unmask key 0 payload),
  length-with_mask 128 (length payload),
  length-unmask key 0 payload,
)

read_mask_found :
    (pre key rest : List ℕ) (pos : ℕ)
    → length pre ≡ pos
    → length key ≡ 4
    → read_mask (pre ++ (key ++ rest)) true pos ≡ some (key, pos + 4)
unfolding read_mask
read_mask_found pre key rest pos hp four =
    let enough : ltb (length (pre ++ (key ++ rest))) (pos + 4) ≡ false =
      ltb_ge _ _ (omega (arith, length-append pre (key ++ rest), length-append key rest)) in
    rw (enough, drop-append_eq pre (key ++ rest) pos (sym hp), take-append_eq key rest 4 (sym four))
      refl

parse_frame-coded_frame :
    (key : List ℕ) (op : Opcode) (payload : List ℕ) (fin : Bool) (rest : List ℕ)
    → length key ≡ 4
    → All IsByte key
    → All IsByte payload
    → IsOpcode op
    → length payload < 2 ^ 63
    → parse_frame (coded_frame key op payload fin ++ rest)
      ≡ parsed
          (record { fin = fin; op = op; masked = true; payload = payload })
          (length (coded_frame key op payload fin))
parse_frame-coded_frame key op payload fin rest four hk hp h small =
    let n = length payload in
    let lb = length_bytes n in
    let head = first_byte op fin ∷ with_mask 128 lb in
    let body = unmask key 0 payload in
    let (_, nine) = length-length_bytes n in
    let size : length head ≡ 1 + length lb = omega (arith, length-with_mask 128 n) in
    rw (coded_frame_split key op payload fin rest, length-coded_frame key op payload fin four)
      (parse_frame_header op fin 128 n (key ++ (body ++ rest)) key (1 + length lb + 4) h
          (omega arith) (inr refl)
          (read_mask_found head key (body ++ rest) (1 + length lb) size four)
        ∙ ap (λ t. take_payload t fin op true key (1 + length lb + 4) n)
            (sym (append_assoc head key (body ++ rest)))
        ∙ take_payload_found (head ++ key) body rest fin op true key (1 + length lb + 4) n
            (omega (arith, size, length-append head key)) (length-unmask key 0 payload)
            (omega (arith, nine))
        ∙ ap
            (λ p.
              parsed (record { fin = fin; op = op; masked = true; payload = p })
                (1 + length lb + 4 + n))
            (unmask_twice key 0 payload hk hp))

-- What a client sends by RFC 6455: the mask bit, the key behind the length, and the payload masked
-- with it.
abbrev pub client_frame : List ℕ → Opcode → List ℕ → Bool → List ℕ
client_frame key op payload fin =
    first_byte op fin
    ∷ (with_mask 128 (length_bytes (length payload)) ++ (key ++ mask_payload key payload))

-- A client's frame, its payload masked with the bytes of the key in turn, is parsed to what it was
-- built from, unmasked, and just its bytes are consumed. The key has four bytes, the opcode four
-- bits, and the payload is shorter than 2^63 bytes.
pub parse_frame-client_frame :
    (key : List ℕ) (op : Opcode) (payload : List ℕ) (fin : Bool) (rest : List ℕ)
    → length key ≡ 4
    → All IsByte key
    → All IsByte payload
    → IsOpcode op
    → length payload < 2 ^ 63
    → parse_frame (client_frame key op payload fin ++ rest)
      ≡ parsed
          (record { fin = fin; op = op; masked = true; payload = payload })
          (length (client_frame key op payload fin))
parse_frame-client_frame key op payload fin rest four hk hp h small =
    rw (mask_payload-unmask key payload four)
      (parse_frame-coded_frame key op payload fin rest four hk hp h small)
