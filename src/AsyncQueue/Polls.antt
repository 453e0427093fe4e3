-- ===== src/AsyncQueue/Polls.antt =====
-- Which pollers of an `async_queue` are served, and with what error code.
use siesta.Prelude.{
  ℕ, ◌+◌, List, [], ◌∷◌, ◌++◌, All, All-append, Option, none, some, ◌≡◌, refl, ap, ◌⊎◌, inl, inr,
  arith, ◌==◌, if◌then◌else◌,
}
use siesta.AsyncQueue.{
  ErrorCode, success, operation_aborted, Calls, both_return, queue_throws, timer_throws, Completion,
  AsyncQueue, code_of, call_handler, put, async_push, async_emplace, async_wait, async_poll, serve,
  wait_op, Event, poll, Step, pushed, emplaced, polled, fired, Reaches, start, next,
}

-- How often a number stands in a list.
abbrev pub occurrences : ℕ → List ℕ → ℕ
occurrences n [] = 0
occurrences n (m ∷ ms) = (if n == m then 1 else 0) + occurrences n ms

occurrences-append :
    (n : ℕ) (ms ks : List ℕ) → occurrences n (ms ++ ks) ≡ occurrences n ms + occurrences n ks
occurrences-append n [] ks = omega arith
occurrences-append n (m ∷ ms) ks = omega (arith, occurrences-append n ms ks)

module _ {V : Type 0} where
  -- The handlers of the polls.
  abbrev pub pollers : List (Event V) → List ℕ
  pollers [] = []
  pollers (poll h ∷ es) = h ∷ pollers es
  pollers (_ ∷ es) = pollers es

  abbrev pub if_served : Option V → ℕ → List ℕ
  if_served none h = []
  if_served (some v) h = h ∷ []

  -- The handlers that got a value.
  abbrev pub served : List (Completion V) → List ℕ
  served [] = []
  served (c ∷ cs) = if_served c.value c.handler ++ served cs

  -- A value comes with the code `operation_aborted`.
  abbrev pub IsAborted : Completion V → Type 0
  IsAborted c = (c.value ≡ none) ⊎ (c.code ≡ operation_aborted)

  abbrev Good : AsyncQueue V → Type 0
  Good q = All IsAborted q.completions

  call_handler-Good :
      (h : ℕ) (code : ErrorCode) (value : Option V) (q : AsyncQueue V)
      → (value ≡ none) ⊎ (code ≡ operation_aborted)
      → Good q
      → Good (call_handler h code value q)
  call_handler-Good h code value q a g = All-append IsAborted q.completions _ g (a, tt)

  push-Good : (v : V) (h : ℕ) (c : Calls) (q : AsyncQueue V) → Good q → Good (async_push v h c q)
  unfolding async_push
  push-Good v h both_return q g = call_handler-Good h success none (put v q) (inl refl) g
  push-Good v h (queue_throws t) q g = call_handler-Good h (code_of t) none q (inl refl) g
  push-Good v h (timer_throws t) q g = call_handler-Good h (code_of t) none (put v q) (inl refl) g

  emplace-Good :
      (v : V) (h : ℕ) (c : Calls) (q : AsyncQueue V) → Good q → Good (async_emplace v h c q)
  unfolding async_emplace
  emplace-Good v h both_return q g = call_handler-Good h success none (put v q) (inl refl) g
  emplace-Good v h (queue_throws t) q g = call_handler-Good h (code_of t) none q (inl refl) g
  emplace-Good v h (timer_throws t) q g =
      call_handler-Good h (code_of t) none (put v q) (inl refl) g

  serve-Good :
      (h : ℕ) (code : ErrorCode) (vs : List V) (q : AsyncQueue V)
      → code ≡ operation_aborted
      → Good q
      → Good (serve h code vs q)
  unfolding serve
  serve-Good h code [] q e g = g
  serve-Good h code (v ∷ vs) q e g =
      call_handler-Good h code (some v) (record q { queue = vs }) (inr e) g

  wait_op-Good : (h : ℕ) (code : ErrorCode) (q : AsyncQueue V) → Good q → Good (wait_op h code q)
  unfolding wait_op
  wait_op-Good h operation_aborted q g = serve-Good h operation_aborted q.queue q refl g
  wait_op-Good h _ q g = g

  step-Good : {e : Event V} {q r : AsyncQueue V} → Step V e q r → Good q → Good r
  unfolding async_poll
  step-Good (pushed v h c q) g = push-Good v h c q g
  step-Good (emplaced v h c q) g = emplace-Good v h c q g
  step-Good (polled h q) g = g
  step-Good (fired h code before behind q e) g =
      wait_op-Good h code (record q { waits = before ++ behind }) g

-- Whatever codes the timer calls back with, a handler that gets a value gets it with the error code
-- `operation_aborted`, never with success.
pub Reaches-IsAborted :
    {V : Type 0} (es : List (Event V)) (q : AsyncQueue V)
    → Reaches V es q
    → All IsAborted q.completions
Reaches-IsAborted es q start = tt
Reaches-IsAborted (e ∷ es) r (next {q = q} before step) =
    step-Good step (Reaches-IsAborted es q before)

module _ {V : Type 0} (n : ℕ) where
  served-append :
      (cs : List (Completion V)) (c : Completion V)
      → occurrences n (served (cs ++ c ∷ []))
        ≡ occurrences n (served cs) + occurrences n (if_served c.value c.handler)
  served-append [] c = rw (occurrences-append n (if_served c.value c.handler) []) (omega arith)
  served-append (d ∷ cs) c =
      rw
        (
          occurrences-append n (if_served d.value d.handler) (served (cs ++ c ∷ [])),
          occurrences-append n (if_served d.value d.handler) (served cs),
          served-append cs c,
        )
        (omega arith)

  -- How often the handler has been served or waits.
  abbrev here : AsyncQueue V → ℕ
  here q = occurrences n (served q.completions) + occurrences n q.waits

  here-call_handler :
      (h : ℕ) (code : ErrorCode) (value : Option V) (q : AsyncQueue V)
      → here (call_handler h code value q) ≡ here q + occurrences n (if_served value h)
  here-call_handler h code value q =
      omega
        (arith, served-append q.completions (record { handler = h; code = code; value = value }))

  here-wait : (h : ℕ) (q : AsyncQueue V) → here (async_wait h q) ≡ here q + occurrences n (h ∷ [])
  here-wait h q = omega (arith, occurrences-append n q.waits (h ∷ []))

  here-serve :
      (h : ℕ) (code : ErrorCode) (vs : List V) (q : AsyncQueue V)
      → here (serve h code vs q) ≡ here q + occurrences n (h ∷ [])
  unfolding serve
  here-serve h code [] q = here-wait h q
  here-serve h code (v ∷ vs) q = here-call_handler h code (some v) (record q { queue = vs })

  here-wait_op :
      (h : ℕ) (code : ErrorCode) (q : AsyncQueue V)
      → here (wait_op h code q) ≡ here q + occurrences n (h ∷ [])
  unfolding wait_op
  here-wait_op h operation_aborted q = here-serve h operation_aborted q.queue q
  here-wait_op h _ q = here-wait h q

  here-push : (v : V) (h : ℕ) (c : Calls) (q : AsyncQueue V) → here (async_push v h c q) ≡ here q
  unfolding async_push
  here-push v h both_return q = omega (arith, here-call_handler h success none (put v q))
  here-push v h (queue_throws t) q = omega (arith, here-call_handler h (code_of t) none q)
  here-push v h (timer_throws t) q = omega (arith, here-call_handler h (code_of t) none (put v q))

  here-emplace :
      (v : V) (h : ℕ) (c : Calls) (q : AsyncQueue V) → here (async_emplace v h c q) ≡ here q
  unfolding async_emplace
  here-emplace v h both_return q = omega (arith, here-call_handler h success none (put v q))
  here-emplace v h (queue_throws t) q = omega (arith, here-call_handler h (code_of t) none q)
  here-emplace v h (timer_throws t) q =
      omega (arith, here-call_handler h (code_of t) none (put v q))

  here-step :
      {e : Event V} {q r : AsyncQueue V} (es : List (Event V))
      → Step V e q r
      → occurrences n (pollers es) ≡ here q
      → occurrences n (pollers (e ∷ es)) ≡ here r
  unfolding async_poll
  here-step es (pushed v h c q) i = omega (arith, here-push v h c q, i)
  here-step es (emplaced v h c q) i = omega (arith, here-emplace v h c q, i)
  here-step es (polled h q) i = omega (arith, here-wait h q, i)
  here-step es (fired h code before behind q e) i = omega (
    arith,
    i,
    here-wait_op h code (record q { waits = before ++ behind }),
    ap (occurrences n) e,
    occurrences-append n before (h ∷ behind),
    occurrences-append n before behind,
  )

-- Every poll is pending or was served exactly once: a handler has been polled with as often as it has got a
-- value and waits at the timer, taken together. A poll is never served twice and never dropped.
pub Reaches-served :
    {V : Type 0} (es : List (Event V)) (q : AsyncQueue V) (n : ℕ)
    → Reaches V es q
    → occurrences n (pollers es) ≡ occurrences n (served q.completions) + occurrences n q.waits
Reaches-served es q n start = refl
Reaches-served (e ∷ es) r n (next {q = q} before step) =
    here-step n es step (Reaches-served es q n before)
