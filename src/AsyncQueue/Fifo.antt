-- ===== src/AsyncQueue/Fifo.antt =====
-- What the pollers of an `async_queue` get.
use siesta.Prelude.{
  ℕ, List, [], ◌∷◌, ◌++◌, append_assoc, append-nil, Option, none, some, ◌≡◌, refl, sym, ◌∙◌,
}
use siesta.AsyncQueue.{
  ErrorCode, success, operation_aborted, Calls, both_return, queue_throws, timer_throws, Completion,
  AsyncQueue, code_of, call_handler, put, async_push, async_emplace, async_poll, serve, wait_op,
  Event, push, emplace, poll, fire, Step, pushed, emplaced, polled, fired, Reaches, start, next,
}

module _ {V : Type 0} where
  abbrev pub entering : V → Calls → List V
  entering v both_return = v ∷ []
  entering v (queue_throws t) = []
  entering v (timer_throws t) = v ∷ []

  -- The value that an event brings into the queue: the one pushed, unless the queue throws.
  abbrev pub brings : Event V → List V
  brings (push v h c) = entering v c
  brings (emplace v h c) = entering v c
  brings (poll h) = []
  brings (fire h code) = []

  -- The values brought by the events, in their order.
  abbrev pub entered : List (Event V) → List V
  entered [] = []
  entered (e ∷ es) = entered es ++ brings e

  abbrev pub value_list : Option V → List V
  value_list none = []
  value_list (some v) = v ∷ []

  -- The values that handlers were called with, in their order.
  abbrev pub received : List (Completion V) → List V
  received [] = []
  received (c ∷ cs) = value_list c.value ++ received cs

  received-append :
      (cs : List (Completion V)) (c : Completion V)
      → received (cs ++ c ∷ []) ≡ received cs ++ value_list c.value
  received-append [] c = append-nil (value_list c.value)
  received-append (d ∷ cs) c =
      rw (received-append cs c)
        (sym (append_assoc (value_list d.value) (received cs) (value_list c.value)))

  abbrev all_values : AsyncQueue V → List V
  all_values q = received q.completions ++ q.queue

  call_handler-none :
      (h : ℕ) (code : ErrorCode) (q : AsyncQueue V)
      → all_values (call_handler h code none q) ≡ all_values q
  call_handler-none h code q = rw (received-append q.completions _, append-nil) refl

  all_values-put : (v : V) (q : AsyncQueue V) → all_values (put v q) ≡ all_values q ++ v ∷ []
  all_values-put v q = sym (append_assoc (received q.completions) q.queue (v ∷ []))

  all_values-serve :
      (h : ℕ) (code : ErrorCode) (vs : List V) (q : AsyncQueue V)
      → q.queue ≡ vs
      → all_values (serve h code vs q) ≡ all_values q
  unfolding serve
  all_values-serve h code [] q e = refl
  all_values-serve h code (v ∷ vs) q e =
      rw (received-append q.completions _, e) (append_assoc (received q.completions) (v ∷ []) vs)

  all_values-wait_op :
      (h : ℕ) (code : ErrorCode) (q : AsyncQueue V) → all_values (wait_op h code q) ≡ all_values q
  unfolding wait_op
  all_values-wait_op h operation_aborted q = all_values-serve h operation_aborted q.queue q refl
  all_values-wait_op h _ q = refl

  all_values-push :
      (v : V) (h : ℕ) (c : Calls) (q : AsyncQueue V)
      → all_values (async_push v h c q) ≡ all_values q ++ entering v c
  unfolding async_push
  all_values-push v h both_return q = call_handler-none h success (put v q) ∙ all_values-put v q
  all_values-push v h (queue_throws t) q =
      call_handler-none h (code_of t) q ∙ sym (append-nil (all_values q))
  all_values-push v h (timer_throws t) q =
      call_handler-none h (code_of t) (put v q) ∙ all_values-put v q

  all_values-emplace :
      (v : V) (h : ℕ) (c : Calls) (q : AsyncQueue V)
      → all_values (async_emplace v h c q) ≡ all_values q ++ entering v c
  unfolding async_emplace async_push
  all_values-emplace v h both_return q = all_values-push v h both_return q
  all_values-emplace v h (queue_throws t) q = all_values-push v h (queue_throws t) q
  all_values-emplace v h (timer_throws t) q = all_values-push v h (timer_throws t) q

  all_values-step :
      {e : Event V} {q r : AsyncQueue V} → Step V e q r → all_values r ≡ all_values q ++ brings e
  unfolding async_poll
  all_values-step (pushed v h c q) = all_values-push v h c q
  all_values-step (emplaced v h c q) = all_values-emplace v h c q
  all_values-step (polled h q) = sym (append-nil (all_values q))
  all_values-step (fired h code before behind q e) =
      all_values-wait_op h code (record q { waits = before ++ behind })
      ∙ sym (append-nil (all_values q))

-- However pushes, polls and the timer's calls interleave, the values that pollers have got, followed by
-- those in the queue, are the values pushed and emplaced, in their order: none is lost, doubled or
-- overtaken. A push whose timer throws counts, though its handler gets an error.
pub Reaches-entered :
    {V : Type 0} (es : List (Event V)) (q : AsyncQueue V)
    → Reaches V es q
    → entered es ≡ received q.completions ++ q.queue
Reaches-entered es q start = refl
Reaches-entered (e ∷ es) r (next {q = q} before step) =
    rw (Reaches-entered es q before) (sym (all_values-step step))
