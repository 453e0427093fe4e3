-- ===== src/Tests/Queues.antt =====
-- include/siesta/asio/queue.hpp: a push, a poll and a call by the timer.
use siesta.Prelude.{ℕ, ◌+◌, List, [], ◌∷◌, ◌++◌, All, ◌≡◌, refl}
use siesta.AsyncQueue.{
  operation_aborted, both_return, AsyncQueue, no_values, async_push, async_poll, wait_op, Event,
  push, poll, fire, pushed, polled, fired, Reaches, start, next,
}
use siesta.AsyncQueue.Fifo.{entered, received, Reaches-entered}
use siesta.AsyncQueue.Polls.{
  occurrences, pollers, served, IsAborted, Reaches-IsAborted, Reaches-served,
}

abbrev events : List (Event ℕ)
events = fire 2 operation_aborted ∷ poll 2 ∷ push 7 1 both_return ∷ []

unfoldable polled_once : AsyncQueue ℕ
unfolding async_push async_poll
polled_once = async_poll 2 (async_push 7 1 both_return no_values)

unfoldable served_once : AsyncQueue ℕ
unfolding wait_op polled_once
served_once = wait_op 2 operation_aborted (record polled_once { waits = [] })

served_once-Reaches : Reaches ℕ events served_once
unfolding served_once polled_once
served_once-Reaches =
    next
      (next (next start (pushed 7 1 both_return no_values))
        (polled 2 (async_push 7 1 both_return no_values)))
      (fired 2 operation_aborted [] [] polled_once refl)

served_once-received : received served_once.completions ≡ 7 ∷ []
unfolding served_once
served_once-received = refl

Reaches-entered_example : entered events ≡ received served_once.completions ++ served_once.queue
Reaches-entered_example = Reaches-entered events served_once served_once-Reaches

Reaches-IsAborted_example : All IsAborted served_once.completions
Reaches-IsAborted_example = Reaches-IsAborted events served_once served_once-Reaches

Reaches-served_example :
    occurrences 2 (pollers events)
    ≡ occurrences 2 (served served_once.completions) + occurrences 2 served_once.waits
Reaches-served_example = Reaches-served events served_once 2 served_once-Reaches
