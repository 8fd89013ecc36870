-- ===== src/Queue.antt =====
-- client/lib/queue.c, of which server/lib/queue.c is a copy: a linked queue, and the queue that threads
-- share.
-- Memory is a function from addresses to list cells, and `next_free` the address that `malloc` gives
-- next; the address 0 is NULL. `malloc` does not fail. A thread that holds the mutex is not disturbed, so
-- a step of the shared queue is what a thread does between taking and leaving the mutex; the threads
-- that `pthread_cond_wait` has put to sleep are a list.
pub mod Linked
pub mod Shared
use tcbackup.Prelude.{
  ℕ, zero, suc, ◌+◌, ◌-◌, ◌*◌, ◌/◌, ◌%◌, ◌^◌, ◌≤◌, ◌<◌, ◌≡◌, refl, sym, ap, ap₂, ◌∙◌, ◌≢◌, ◌↔◌, ◌⊎◌,
  inl, inr, Bool, true, false, ◌&&◌, ◌||◌, not, Option, none, some, List, [], ◌∷◌, ◌++◌, map, arith,
  Bytes, bytes_eq, length, take, drop, replicate, set, get_or, length-append, length-take,
  length-drop, length-replicate, take-append-drop, take_all, take_front, drop_front, drop-drop, ltb,
  leb, ◌==◌, if◌then◌else◌, tests, Bool-cases, Option-cases, All,
}

pub record Cell : Type 0 where
  pub next : ℕ
  pub element : ℕ

pub record Memory : Type 0 where
  pub cells : ℕ → Cell
  pub next_free : ℕ

pub record Queue : Type 0 where
  pub first : ℕ
  pub last : ℕ
  pub elem_num : ℕ

unfoldable pub queue_init : Queue
queue_init = record { first = 0; last = 0; elem_num = 0 }

unfoldable pub store : ℕ → Cell → (ℕ → Cell) → ℕ → Cell
store address cell cells p = if p == address then cell else cells p

unfoldable pub queue_push : ℕ → Queue → Memory → Queue × Memory
unfolding store
queue_push element queue memory =
    let item = memory.next_free in
    let cells = store item (record { next = 0; element = element }) memory.cells in
    let linked =
      store queue.last (record { next = item; element = (cells queue.last).element }) cells in
    let fresh = queue.first == 0 in
    (
      record {
        first = if fresh then item else queue.first;
        last = item;
        elem_num = queue.elem_num + 1;
      },
      record { cells = if fresh then cells else linked; next_free = item + 1 },
    )

-- The element, or 0. A freed cell keeps its contents.
unfoldable pub queue_pop : Queue → Memory → ℕ × Queue
queue_pop queue memory =
    let item = queue.first in
    if queue.elem_num == 0 then (0, queue) else (
      (memory.cells item).element,
      record {
        first = (memory.cells item).next;
        last = if queue.last == item then 0 else queue.last;
        elem_num = queue.elem_num - 1;
      },
    )

unfoldable pub queue_size : Queue → ℕ
queue_size queue = queue.elem_num

abbrev pub sync_queue_valid : ℕ
sync_queue_valid = 0x1234

pub record SyncQueue : Type 0 where
  pub queue : Queue
  pub memory : Memory
  pub valid : ℕ
  pub asleep : List ℕ

-- The memory is what the other parts of the program left.
unfoldable pub sync_queue_new : Memory → SyncQueue
unfolding queue_init
sync_queue_new memory = record {
  queue = queue_init;
  memory = memory;
  valid = sync_queue_valid;
  asleep = [];
}

-- The broadcast wakes all.
unfoldable pub sync_queue_push : ℕ → SyncQueue → SyncQueue
unfolding queue_push
sync_queue_push elem s =
    let (queue, memory) = queue_push elem s.queue s.memory in
    if s.valid == sync_queue_valid
    then record s { queue = queue; memory = memory; asleep = [] }
    else s

-- A turn of `sync_queue_pop` in a thread: the element, or NULL where the queue is not valid, or `none`
-- where the thread goes to sleep and will take another turn when it wakes.
unfoldable pub sync_queue_pop : ℕ → SyncQueue → Option ℕ × SyncQueue
unfolding queue_pop
sync_queue_pop thread s =
    let (elem, queue) = queue_pop s.queue s.memory in
    if s.valid == sync_queue_valid
    then (if elem == 0
        then (none, record s { queue = queue; asleep = thread ∷ s.asleep })
        else (some elem, record s { queue = queue }))
    else (some 0, s)
