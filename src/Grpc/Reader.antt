-- ===== src/Grpc/Reader.antt =====
-- `class reader` of include/async_net/grpc/stream.hpp and src/grpc/grpc_stream.cpp. A coroutine that
-- waits is a number; to resume it hands it what `await_resume` returns.
pub mod Fifo
use async_net.Base.{ℕ, List, [], ◌∷◌, ◌++◌, Bool, true, false, if◌then◌else◌, Option, none, some}

pub record Reader : Type 0 where
  pub messages : List (List ℕ)
  pub done : Bool
  pub waiter : Option ℕ

abbrev pub new_reader : Reader
new_reader = record { messages = []; done = false; waiter = none }

-- What a coroutine gets of its `read`: a message, or nothing at the end of the stream.
pub record Delivery : Type 0 where
  pub coroutine : ℕ
  pub result : Option (List ℕ)

-- `await_resume`: the first message, if there is one.
unfoldable pub await_resume : Reader → ℕ → Reader × List Delivery
await_resume r h = elim r.messages [
  | [] ↦ (r, record { coroutine = h; result = none } ∷ [])
  | msg ∷ rest ↦ (record r { messages = rest }, record { coroutine = h; result = some msg } ∷ [])
]

-- `read`: at once if there is a message or the stream has ended, else the coroutine waits.
unfoldable pub read : Reader → ℕ → Reader × List Delivery
unfolding await_resume
read r h = elim r.messages [
  | msg ∷ rest ↦ await_resume r h
  | [] ↦ if r.done then await_resume r h else (record r { waiter = some h }, [])
]

-- The end of `push_message` and of `finish`: the waiter is taken out, then resumed.
unfoldable pub wake : Reader → Reader × List Delivery
unfolding await_resume
wake r = elim r.waiter [ none ↦ (r, []) | some h ↦ await_resume (record r { waiter = none }) h ]

unfoldable pub push_message : Reader → List ℕ → Reader × List Delivery
unfolding wake
push_message r msg = wake (record r { messages = r.messages ++ (msg ∷ []) })

unfoldable pub finish : Reader → Reader × List Delivery
unfolding wake
finish r = wake (record r { done = true })

-- The calls that a consumer and the session make, in any order.
pub data Call : Type 0 where
  read_by : ℕ → Call
  pushed : List ℕ → Call
  finished : Call

unfoldable pub step : Reader → Call → Reader × List Delivery
unfolding read push_message finish
step r (read_by h) = read r h
step r (pushed msg) = push_message r msg
step r finished = finish r

unfoldable pub run : Reader → List Call → Reader × List Delivery
unfolding step
run r [] = (r, [])
run r (call ∷ calls) =
    let (r', now) = step r call in let (r'', later) = run r' calls in (r'', now ++ later)
