-- ===== src/Grpc/Reader/Fifo.antt =====
-- `reader` hands over each message once, in order.
use async_net.Base.{ℕ, ◌≡◌, refl, ap, sym, ◌∙◌, List, [], ◌∷◌, ◌++◌, append_assoc, append-nil}
use async_net.Base.{◌&&◌, arith}
use async_net.Base.{Bool, true, false, Option, none, some, inl, inr, Option-cases}
use async_net.Grpc.Reader.{Reader, Delivery, await_resume, read, wake, Call, read_by, pushed}
use async_net.Grpc.Reader.{finished, step, run}

-- The messages in what was delivered.
abbrev pub received : List Delivery → List (List ℕ)
received [] = []
received (d ∷ ds) = elim d.result [ none ↦ received ds | some msg ↦ msg ∷ received ds ]

abbrev pub pushes : List Call → List (List ℕ)
pushes [] = []
pushes (pushed msg ∷ calls) = msg ∷ pushes calls
pushes (_ ∷ calls) = pushes calls

received-append : (xs ys : List Delivery) → received (xs ++ ys) ≡ received xs ++ received ys
received-append [] ys = refl
received-append (d ∷ xs) ys = elim (Option-cases d.result) [
  | inl e ↦ rw e (received-append xs ys)
  | inr (msg, e) ↦ rw e (ap (λ t. msg ∷ t) (received-append xs ys))
]

-- The fields of a reader one by one.
abbrev reader : List (List ℕ) → Bool → Option ℕ → Reader
reader ms done waiter = record { messages = ms; done = done; waiter = waiter }

await_resume-received :
    (ms : List (List ℕ)) (done : Bool) (waiter : Option ℕ) (h : ℕ)
    → received (await_resume (reader ms done waiter) h).1
        ++ (await_resume (reader ms done waiter) h).0.messages
      ≡ ms
unfolding await_resume
await_resume-received [] done waiter h = refl
await_resume-received (msg ∷ ms) done waiter h = refl

wake-received :
    (ms : List (List ℕ)) (done : Bool) (waiter : Option ℕ)
    → received (wake (reader ms done waiter)).1 ++ (wake (reader ms done waiter)).0.messages ≡ ms
unfolding wake
wake-received ms done none = refl
wake-received ms done (some h) = await_resume-received ms done none h

read-received :
    (ms : List (List ℕ)) (done : Bool) (waiter : Option ℕ) (h : ℕ)
    → received (read (reader ms done waiter) h).1 ++ (read (reader ms done waiter) h).0.messages
      ≡ ms
unfolding read
read-received (msg ∷ ms) done waiter h = refl
read-received [] true waiter h = refl
read-received [] false waiter h = refl

-- One call keeps the order: what it delivers and what stays is what there was and what was pushed.
step-received :
    (r : Reader) (call : Call)
    → received (step r call).1 ++ (step r call).0.messages ≡ r.messages ++ pushes (call ∷ [])
unfolding step
step-received r (read_by h) =
    read-received r.messages r.done r.waiter h ∙ sym (append-nil r.messages)
step-received r (pushed msg) = wake-received (r.messages ++ (msg ∷ [])) r.done r.waiter
step-received r finished = wake-received r.messages true r.waiter ∙ sym (append-nil r.messages)

pushes-cons :
    (call : Call) (calls : List Call) → pushes (call ∷ calls) ≡ pushes (call ∷ []) ++ pushes calls
pushes-cons (read_by h) calls = refl
pushes-cons (pushed msg) calls = refl
pushes-cons finished calls = refl

-- Whatever calls are made, in whatever order: the messages that the coroutines got, in order, and
-- behind them those that are still kept, are the messages that there were and that were pushed.
pub run-received :
    (r : Reader) (calls : List Call)
    → received (run r calls).1 ++ (run r calls).0.messages ≡ r.messages ++ pushes calls
unfolding run
run-received r [] = sym (append-nil r.messages)
run-received r (call ∷ calls) =
    let now = step r call in
    let later = run now.0 calls in
    ap (λ t. t ++ later.0.messages) (received-append now.1 later.1)
    ∙ append_assoc (received now.1) (received later.1) later.0.messages
    ∙ ap (λ t. received now.1 ++ t) (run-received now.0 calls)
    ∙ sym (append_assoc (received now.1) now.0.messages (pushes calls))
    ∙ ap (λ t. t ++ pushes calls) (step-received r call)
    ∙ append_assoc r.messages (pushes (call ∷ [])) (pushes calls)
    ∙ ap (λ t. r.messages ++ t) (sym (pushes-cons call calls))

-- Nobody waits while there is a message or when the stream has ended.
pub record IsValid (r : Reader) : Type 0 where
  pub idle : (h : ℕ) → r.waiter ≡ some h → (r.messages ≡ []) × (r.done ≡ false)

pub none-ne-some : {h : ℕ} → none ≡ some h → ⊥
none-ne-some e = cc

cons-ne-nil : {m : List ℕ} {ms : List (List ℕ)} → m ∷ ms ≡ [] → ⊥
cons-ne-nil e = cc

await_resume-IsValid :
    (ms : List (List ℕ)) (done : Bool) (h : ℕ) → IsValid (await_resume (reader ms done none) h).0
unfolding await_resume
await_resume-IsValid [] done h = record { idle = λ h' e. absurd (none-ne-some e) }
await_resume-IsValid (m ∷ ms) done h = record { idle = λ h' e. absurd (none-ne-some e) }

wake-IsValid :
    (ms : List (List ℕ)) (done : Bool) (waiter : Option ℕ)
    → IsValid (wake (reader ms done waiter)).0
unfolding wake
wake-IsValid ms done none = record { idle = λ h' e. absurd (none-ne-some e) }
wake-IsValid ms done (some h) = await_resume-IsValid ms done h

read-IsValid :
    (ms : List (List ℕ)) (done : Bool) (waiter : Option ℕ) (h : ℕ)
    → IsValid (reader ms done waiter)
    → IsValid (read (reader ms done waiter) h).0
unfolding read
read-IsValid (m ∷ ms) done waiter h v = record {
  idle = λ h' e. absurd (cons-ne-nil (v.idle h' e).0);
}
read-IsValid [] true waiter h v = v
read-IsValid [] false waiter h v = record { idle = λ h' e. (refl, refl) }

-- Every call keeps the invariant.
step-IsValid : (r : Reader) (call : Call) → IsValid r → IsValid (step r call).0
unfolding step
step-IsValid r (read_by h) v = read-IsValid r.messages r.done r.waiter h v
step-IsValid r (pushed msg) v = wake-IsValid (r.messages ++ (msg ∷ [])) r.done r.waiter
step-IsValid r finished v = wake-IsValid r.messages true r.waiter

run-IsValid : (r : Reader) (calls : List Call) → IsValid r → IsValid (run r calls).0
unfolding run
run-IsValid r [] v = v
run-IsValid r (call ∷ calls) v = run-IsValid (step r call).0 calls (step-IsValid r call v)

-- The coroutine that waits, if there is one.
abbrev pub waiting : Reader → List ℕ
waiting r = elim r.waiter [ none ↦ [] | some h ↦ h ∷ [] ]

abbrev pub readers : List Call → List ℕ
readers [] = []
readers (read_by h ∷ calls) = h ∷ readers calls
readers (_ ∷ calls) = readers calls

abbrev pub answered : List Delivery → List ℕ
answered [] = []
answered (d ∷ ds) = d.coroutine ∷ answered ds

abbrev may_call : Option ℕ → Call → Bool
may_call none call = true
may_call (some w) (read_by h) = false
may_call (some w) call = true

-- No coroutine reads while another waits.
unfoldable pub exclusive : Reader → List Call → Bool
unfolding step
exclusive r [] = true
exclusive r (call ∷ calls) = may_call r.waiter call && exclusive (step r call).0 calls

answered-append : (xs ys : List Delivery) → answered (xs ++ ys) ≡ answered xs ++ answered ys
answered-append [] ys = refl
answered-append (d ∷ xs) ys = ap (λ t. d.coroutine ∷ t) (answered-append xs ys)

await_resume-answered :
    (ms : List (List ℕ)) (done : Bool) (waiter : Option ℕ) (h : ℕ)
    → answered (await_resume (reader ms done waiter) h).1
        ++ waiting (await_resume (reader ms done waiter) h).0
      ≡ h ∷ waiting (reader ms done waiter)
unfolding await_resume
await_resume-answered [] done waiter h = refl
await_resume-answered (msg ∷ ms) done waiter h = refl

wake-answered :
    (ms : List (List ℕ)) (done : Bool) (waiter : Option ℕ)
    → answered (wake (reader ms done waiter)).1 ++ waiting (wake (reader ms done waiter)).0
      ≡ waiting (reader ms done waiter)
unfolding wake
wake-answered ms done none = refl
wake-answered ms done (some h) = await_resume-answered ms done none h

read-answered :
    (ms : List (List ℕ)) (done : Bool) (h : ℕ)
    → answered (read (reader ms done none) h).1 ++ waiting (read (reader ms done none) h).0 ≡ h ∷ []
unfolding read
read-answered (msg ∷ ms) done h = refl
read-answered [] true h = refl
read-answered [] false h = refl

step-answered :
    (ms : List (List ℕ)) (done : Bool) (waiter : Option ℕ) (call : Call)
    → may_call waiter call ≡ true
    → answered (step (reader ms done waiter) call).1
        ++ waiting (step (reader ms done waiter) call).0
      ≡ waiting (reader ms done waiter) ++ readers (call ∷ [])
unfolding step
step-answered ms done none (read_by h) m = read-answered ms done h
step-answered ms done (some w) (read_by h) m = cc
step-answered ms done waiter (pushed msg) m =
    wake-answered (ms ++ (msg ∷ [])) done waiter
    ∙ sym (append-nil (waiting (reader ms done waiter)))
step-answered ms done waiter finished m =
    wake-answered ms true waiter ∙ sym (append-nil (waiting (reader ms done waiter)))

readers-cons :
    (call : Call) (calls : List Call)
    → readers (call ∷ calls) ≡ readers (call ∷ []) ++ readers calls
readers-cons (read_by h) calls = refl
readers-cons (pushed msg) calls = refl
readers-cons finished calls = refl

run-waiting :
    (r : Reader) (calls : List Call)
    → exclusive r calls ≡ true
    → answered (run r calls).1 ++ waiting (run r calls).0 ≡ waiting r ++ readers calls
unfolding run exclusive
run-waiting r [] x = sym (append-nil (waiting r))
run-waiting r (call ∷ calls) x =
    let now = step r call in
    let later = run now.0 calls in
    ap (λ t. t ++ waiting later.0) (answered-append now.1 later.1)
    ∙ append_assoc (answered now.1) (answered later.1) (waiting later.0)
    ∙ ap (λ t. answered now.1 ++ t) (run-waiting now.0 calls (ground arith))
    ∙ sym (append_assoc (answered now.1) (waiting now.0) (readers calls))
    ∙ ap (λ t. t ++ readers calls) (step-answered r.messages r.done r.waiter call (ground arith))
    ∙ append_assoc (waiting r) (readers (call ∷ [])) (readers calls)
    ∙ ap (λ t. waiting r ++ t) (sym (readers-cons call calls))

nobody_waits : (r : Reader) → IsValid r → r.done ≡ true → waiting r ≡ []
nobody_waits r v e = elim (Option-cases r.waiter) [
  | inl n ↦ rw n refl
  | inr (h, s) ↦ let ended = (v.idle h s).1 in cc
]

-- Where no coroutine reads while another waits: once the stream has ended, the coroutine that waited
-- and those that read have each got one answer, in this order. At the start nobody waits while there
-- is a message or when the stream has ended.
pub run-answered :
    (r : Reader) (calls : List Call)
    → IsValid r
    → exclusive r calls ≡ true
    → (run r calls).0.done ≡ true
    → answered (run r calls).1 ≡ waiting r ++ readers calls
run-answered r calls v x e =
    sym (append-nil (answered (run r calls).1))
    ∙ ap (λ t. answered (run r calls).1 ++ t)
        (sym (nobody_waits (run r calls).0 (run-IsValid r calls v) e))
    ∙ run-waiting r calls x
