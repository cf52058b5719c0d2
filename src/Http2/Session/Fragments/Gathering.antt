-- ===== src/Http2/Session/Fragments/Gathering.antt =====
-- The CONTINUATION frames of a header block, in src/http/http2_session.cpp: what has come of the block
-- is kept in its stream, and decoded with the last frame.
use async_net.Base.{
  ℕ, zero, suc, ◌<◌, ◌≤◌, List, [], ◌∷◌, ◌++◌, true, false, ◌≡◌, ◌≢◌, refl, ap, ◌∙◌, sym, arith,
  ◌==◌,
}
use async_net.Base.{
  is_empty, length, take, drop, Bool-cases, inl, inr, append_assoc, append-nil, take-append-drop,
  length-drop,
}
use async_net.Http2.Frame.{has_flag}
use async_net.Http2.Frame.Code.{continuation}
use async_net.Http2.Frame.Flag
use async_net.Http2.Session.State.{
  Session, Stream, Streams, Handlers, find_stream, put_stream, modify_stream,
}
use async_net.Http2.Session.Streams.{find_stream-put_stream_self, put_stream-put_stream}
use async_net.Http2.Session.Dispatch.{decode_block}
use async_net.Http2.Session.Receive.{
  set_pending, apply_block, end_block, continue_block, handle_continuation,
}
use async_net.Http2.Session.Feed.{process_frame}
use async_net.Http2.Session.Fragments.{made, continuations, process_all}

-- A session that has `block` of a header block on the stream `sid`.
unfoldable pub waiting : ℕ → Session → Streams → Stream → List ℕ → Session
waiting sid s m ss block = record s {
  streams = put_stream sid (set_pending block ss) m;
  continuation_stream = sid;
}

-- The same session when the block is complete and decoded.
unfoldable pub gathered : Handlers → ℕ → Session → Streams → Stream → List ℕ → Session
gathered h sid s m ss block =
    let (hdrs, s₁) = decode_block s block in
    apply_block h s.mode sid hdrs ss.end_stream
      (record s₁ { streams = put_stream sid (set_pending [] ss) m; continuation_stream = 0 })

-- While a block is expected, a CONTINUATION frame of its stream goes to its handler.
process_frame_expected :
    (h : Handlers) (flags sid : ℕ) (chunk : List ℕ) (s : Session)
    → sid ≢ 0
    → s.continuation_stream ≡ sid
    → process_frame h (made continuation flags sid chunk) s
      ≡ handle_continuation h (made continuation flags sid chunk) s
unfolding process_frame
process_frame_expected h flags sid chunk s ne e =
    let nonzero : (s.continuation_stream == 0) ≡ false = ground arith in
    let same : (sid == s.continuation_stream) ≡ true = ground arith in rw nonzero (rw same refl)

-- A change of a stream that has just been put.
pub modify_stream-put_stream :
    (sid : ℕ) (change : Stream → Stream) (s : Session) (ss : Stream) (m : Streams)
    → s.streams ≡ put_stream sid ss m
    → modify_stream sid change s ≡ record s { streams = put_stream sid (change ss) m }
unfolding modify_stream
modify_stream-put_stream sid change s ss m e =
    let found = ap (find_stream sid) e ∙ find_stream-put_stream_self sid ss m in
    rw (found, modify_stream)
      (ap (λ x. record s { streams = x })
        (ap (put_stream sid (change ss)) e ∙ put_stream-put_stream sid (change ss) ss m))

process_frame_middle :
    (h : Handlers) (sid : ℕ) (s : Session) (m : Streams) (ss : Stream) (block chunk : List ℕ)
    → sid ≢ 0
    → process_frame h (made continuation 0 sid chunk) (waiting sid s m ss block)
      ≡ waiting sid s m ss (block ++ chunk)
unfolding waiting has_flag handle_continuation continue_block
process_frame_middle h sid s m ss block chunk ne =
    let w = waiting sid s m ss block in
    process_frame_expected h 0 sid chunk w ne refl
    ∙ ap (continue_block h (made continuation 0 sid chunk) w)
        (find_stream-put_stream_self sid (set_pending block ss) m)
    ∙ modify_stream-put_stream sid (set_pending (block ++ chunk)) w (set_pending block ss) m refl

process_frame_last :
    (h : Handlers) (sid : ℕ) (s : Session) (m : Streams) (ss : Stream) (block chunk : List ℕ)
    → sid ≢ 0
    → process_frame h (made continuation Flag.end_headers sid chunk) (waiting sid s m ss block)
      ≡ gathered h sid s m ss (block ++ chunk)
unfolding waiting has_flag handle_continuation continue_block gathered end_block decode_block
process_frame_last h sid s m ss block chunk ne =
    let w = waiting sid s m ss block in
    let decoded = decode_block (record w { continuation_stream = 0 }) (block ++ chunk) in
    process_frame_expected h Flag.end_headers sid chunk w ne refl
    ∙ ap (continue_block h (made continuation Flag.end_headers sid chunk) w)
        (find_stream-put_stream_self sid (set_pending block ss) m)
    ∙ ap (apply_block h s.mode sid decoded.0 ss.end_stream)
        (modify_stream-put_stream sid (set_pending []) decoded.1 (set_pending block ss) m refl)

is_empty→nil : (xs : List ℕ) → is_empty xs ≡ true → xs ≡ []
is_empty→nil [] e = refl
is_empty→nil (x ∷ xs) e = cc

is_empty-false : (xs : List ℕ) → is_empty xs ≡ false → 0 < length xs
is_empty-false [] e = cc
is_empty-false (x ∷ xs) e = omega arith

process_all_none :
    (h : Handlers) (fuel max_size sid : ℕ) (s : Session)
    → process_all h (continuations fuel max_size sid []) s ≡ s
unfolding process_all continuations
process_all_none h zero max_size sid s = refl
process_all_none h (suc fuel) max_size sid s = refl

-- The CONTINUATION frames of what is left of a block.
pub process_all-continuations :
    (h : Handlers) (fuel max_size sid : ℕ) (s : Session) (m : Streams) (ss : Stream)
    (block rest : List ℕ)
    → sid ≢ 0
    → 0 < max_size
    → length rest ≤ fuel
    → 0 < length rest
    → process_all h (continuations fuel max_size sid rest) (waiting sid s m ss block)
      ≡ gathered h sid s m ss (block ++ rest)
unfolding process_all continuations
process_all-continuations h zero max_size sid s m ss block rest ne pos_max enough some_left =
    absurd (omega arith)
process_all-continuations h (suc fuel) max_size sid s m ss block [] ne pos_max enough some_left =
    absurd (omega arith)
process_all-continuations h (suc fuel) max_size sid s m ss block (b ∷ bs) ne pos_max enough
      some_left =
    let chunk = take max_size (b ∷ bs) in
    let behind = drop max_size (b ∷ bs) in
    let joined : (block ++ chunk) ++ behind ≡ block ++ (b ∷ bs) =
      append_assoc block chunk behind ∙ ap (λ x. block ++ x) (take-append-drop max_size (b ∷ bs)) in
    elim (Bool-cases (is_empty behind)) [
      | inl e ↦
          let gone : behind ≡ [] = is_empty→nil behind e in
          rw e (
            ap
              (λ x. process_all h (continuations fuel max_size sid x) (
                process_frame h (made continuation Flag.end_headers sid chunk)
                  (waiting sid s m ss block)))
              gone
            ∙ process_all_none h fuel max_size sid _
            ∙ process_frame_last h sid s m ss block chunk ne
            ∙ ap (gathered h sid s m ss) (
                sym (append-nil (block ++ chunk))
                ∙ ap (λ x. (block ++ chunk) ++ x) (sym gone)
                ∙ joined))
      | inr e ↦ rw e (
          ap (process_all h (continuations fuel max_size sid behind))
            (process_frame_middle h sid s m ss block chunk ne)
          ∙ process_all-continuations h fuel max_size sid s m ss (block ++ chunk) behind ne pos_max
              (omega (arith, length-drop max_size (b ∷ bs))) (is_empty-false behind e)
          ∙ ap (gathered h sid s m ss) joined)
    ]
