-- ===== src/Tests/Queues.antt =====
-- A queue to which two elements are pushed, one of which is popped.
use tcbackup.Prelude.{ℕ, ◌<◌, ◌≡◌, some, [], ◌∷◌, arith}
use tcbackup.Queue.{
  Memory, Queue, queue_init, queue_push, queue_pop, queue_size, sync_queue_new, sync_queue_push,
  sync_queue_pop,
}
use tcbackup.Queue.Linked.{IsQueue, queue_init-IsQueue, queue_push-IsQueue, queue_pop-IsQueue}
use tcbackup.Queue.Shared.{
  History, push, Reach, here, next, IsFifo, Reach-IsFifo, Reach-sync_queue_pop,
}

abbrev memory : Memory
memory = record { cells = λ p. record { next = 0; element = 0 }; next_free = 1 }

empty : IsQueue memory queue_init []
empty = queue_init-IsQueue memory (omega arith)

abbrev one : Queue × Memory
one = queue_push 7 queue_init memory

one-IsQueue : IsQueue one.1 one.0 (7 ∷ [])
one-IsQueue = queue_push-IsQueue 7 memory queue_init [] empty

queue_push-IsQueue_example :
    IsQueue (queue_push 8 one.0 one.1).1 (queue_push 8 one.0 one.1).0 (7 ∷ 8 ∷ [])
queue_push-IsQueue_example = queue_push-IsQueue 8 one.1 one.0 (7 ∷ []) one-IsQueue

queue_pop-IsQueue_example :
    ((queue_pop one.0 one.1).0 ≡ 7) × IsQueue one.1 (queue_pop one.0 one.1).1 []
queue_pop-IsQueue_example = queue_pop-IsQueue one.1 one.0 7 [] one-IsQueue

abbrev start : History
start = record { sync = sync_queue_new memory; pushed = []; popped = [] }

abbrev later : History
later = record { sync = sync_queue_push 7 (sync_queue_new memory); pushed = 7 ∷ []; popped = [] }

steps : Reach start later
steps = next here (push start 7 (omega arith))

Reach-IsFifo_example : IsFifo later
Reach-IsFifo_example = Reach-IsFifo memory later (omega arith) steps

one_left : 0 < queue_size later.sync.queue
unfolding queue_size sync_queue_push sync_queue_new
one_left = omega arith

Reach-sync_queue_pop_example :
    (later.sync.asleep ≡ []) × ((x : ℕ) × ((sync_queue_pop 3 later.sync).0 ≡ some x))
Reach-sync_queue_pop_example = Reach-sync_queue_pop memory later 3 (omega arith) steps one_left
