-- ===== src/AsyncQueue.antt =====
-- include/siesta/asio/queue.hpp: `async_queue`, on one strand. The timer is Boost's: it keeps the operations
-- that wait, and calls any of them back, once for each wait, at any time and with any error code.
pub mod Fifo
pub mod Polls
use siesta.Prelude.{
  ℕ, zero, suc, ◌+◌, List, [], ◌∷◌, ◌++◌, Option, none, some, ◌≡◌, ◌==◌, if◌then◌else◌, Bool, true,
  false,
}

pub data ErrorCode : Type 0 where
  success operation_aborted not_enough_memory : ErrorCode
  other : ℕ → ErrorCode

-- What a call throws: a std::system_error with its code, or something else.
pub data Thrown : Type 0 where
  system_error : ErrorCode → Thrown
  something : Thrown

-- How the two calls that a push makes go: the queue's or the timer's may throw.
pub data Calls : Type 0 where
  both_return : Calls
  queue_throws : Thrown → Calls
  timer_throws : Thrown → Calls

-- A handler and what it was called with.
pub record Completion (V : Type 0) : Type 0 where
  pub handler : ℕ
  pub code : ErrorCode
  pub value : Option V

-- `_queue`; the handlers whose operations wait at `_timer`; the calls of handlers so far.
pub record AsyncQueue (V : Type 0) : Type 0 where
  pub queue : List V
  pub waits : List ℕ
  pub completions : List (Completion V)

abbrev pub code_of : Thrown → ErrorCode
code_of (system_error code) = code
code_of something = not_enough_memory

module _ {V : Type 0} where
  abbrev pub no_values : AsyncQueue V
  no_values = record { queue = []; waits = []; completions = [] }

  abbrev pub call_handler : ℕ → ErrorCode → Option V → AsyncQueue V → AsyncQueue V
  call_handler handler code value q = record q {
    completions = q.completions ++ record { handler = handler; code = code; value = value } ∷ [];
  }

  abbrev pub put : V → AsyncQueue V → AsyncQueue V
  put v q = record q { queue = q.queue ++ v ∷ [] }

  -- `cancel_one` makes the timer call an operation back, which is a step of the timer's own.
  unfoldable pub async_push : V → ℕ → Calls → AsyncQueue V → AsyncQueue V
  async_push v handler both_return q = call_handler handler success none (put v q)
  async_push v handler (queue_throws t) q = call_handler handler (code_of t) none q
  async_push v handler (timer_throws t) q = call_handler handler (code_of t) none (put v q)

  -- The same with a value that the queue makes of the arguments, for a handler and arguments that its
  -- initiation, a lambda that is not mutable and names a handler without arguments, compiles with.
  unfoldable pub async_emplace : V → ℕ → Calls → AsyncQueue V → AsyncQueue V
  async_emplace v handler both_return q = call_handler handler success none (put v q)
  async_emplace v handler (queue_throws t) q = call_handler handler (code_of t) none q
  async_emplace v handler (timer_throws t) q = call_handler handler (code_of t) none (put v q)

  -- _timer.async_wait
  abbrev pub async_wait : ℕ → AsyncQueue V → AsyncQueue V
  async_wait handler q = record q { waits = q.waits ++ handler ∷ [] }

  unfoldable pub async_poll : ℕ → AsyncQueue V → AsyncQueue V
  async_poll handler q = async_wait handler q

  -- The front of the queue to the handler, with the code of the call, or one more wait.
  unfoldable pub serve : ℕ → ErrorCode → List V → AsyncQueue V → AsyncQueue V
  serve handler code [] q = async_wait handler q
  serve handler code (v ∷ vs) q = call_handler handler code (some v) (record q { queue = vs })

  -- operator() of wait_op: any other code leads to one more wait
  unfoldable pub wait_op : ℕ → ErrorCode → AsyncQueue V → AsyncQueue V
  unfolding serve
  wait_op handler operation_aborted q = serve handler operation_aborted q.queue q
  wait_op handler _ q = async_wait handler q

-- What is called: the program's three functions, and an operation by the timer.
pub data Event (V : Type 0) : Type 0 where
  push : V → ℕ → Calls → Event V
  emplace : V → ℕ → Calls → Event V
  poll : ℕ → Event V
  fire : ℕ → ErrorCode → Event V

-- One step. The timer calls an operation that waits, which it then has no more.
pub data Step (V : Type 0) : Event V → AsyncQueue V → AsyncQueue V → Type 0 where
  pushed :
      (v : V) (h : ℕ) (c : Calls) (q : AsyncQueue V) → Step V (push v h c) q (async_push v h c q)
  emplaced :
      (v : V) (h : ℕ) (c : Calls) (q : AsyncQueue V)
      → Step V (emplace v h c) q (async_emplace v h c q)
  polled : (h : ℕ) (q : AsyncQueue V) → Step V (poll h) q (async_poll h q)
  fired :
      (h : ℕ) (code : ErrorCode) (before behind : List ℕ) (q : AsyncQueue V)
      → q.waits ≡ before ++ h ∷ behind
      → Step V (fire h code) q (wait_op h code (record q { waits = before ++ behind }))

-- Any interleaving of steps, from the empty queue; the last event stands first.
pub data Reaches (V : Type 0) : List (Event V) → AsyncQueue V → Type 0 where
  start : Reaches V [] no_values
  next :
      {e : Event V} {es : List (Event V)} {q r : AsyncQueue V}
      → Reaches V es q
      → Step V e q r
      → Reaches V (e ∷ es) r
