-- ===== src/Queue/Shared.antt =====
-- client/lib/queue.c, the queue that threads share: what comes out is what went in, in its order, and no
-- thread sleeps while there is something to take.
use tcbackup.Prelude.{
  ℕ, ◌<◌, ◌≡◌, refl, sym, ap, ◌∙◌, ◌≢◌, ◌⊎◌, inl, inr, true, false, none, some, List, [], ◌∷◌, ◌++◌,
  arith, length, ◌==◌, All, ==_iff,
}
use mathlib.Core.List.{append_assoc}
use mathlib.Core.Path.{subst}
use mathlib.Core.Option.{some-injective, none-ne-some}
use tcbackup.Queue.{
  Memory, queue_pop, queue_size, SyncQueue, sync_queue_valid, sync_queue_new, sync_queue_push,
  sync_queue_pop,
}
use tcbackup.Queue.Linked.{
  IsQueue, queue_init-IsQueue, queue_push-IsQueue, queue_pop-IsQueue, queue_pop_empty,
}

-- The queue, what was pushed so far and what was popped, the oldest first.
pub record History : Type 0 where
  pub sync : SyncQueue
  pub pushed : List ℕ
  pub popped : List ℕ

-- What some thread does next. An element is no NULL pointer; a sleeping thread may wake at any time.
pub data Step : History → History → Type 0 where
  push :
      (h : History) (x : ℕ)
      → 0 < x
      → Step h (record h { sync = sync_queue_push x h.sync; pushed = h.pushed ++ x ∷ [] })
  pop :
      (h : History) (thread x : ℕ)
      → (sync_queue_pop thread h.sync).0 ≡ some x
      → Step h (record h { sync = (sync_queue_pop thread h.sync).1; popped = h.popped ++ x ∷ [] })
  sleep :
      (h : History) (thread : ℕ)
      → (sync_queue_pop thread h.sync).0 ≡ none
      → Step h (record h { sync = (sync_queue_pop thread h.sync).1 })
  wake :
      (h : History) (before after : List ℕ) (thread : ℕ)
      → h.sync.asleep ≡ before ++ thread ∷ after
      → Step h (record h { sync = record (h.sync) { asleep = before ++ after } })

pub data Reach (s : History) : History → Type 0 where
  here : Reach s s
  next : {t u : History} → Reach s t → Step t u → Reach s u

-- The queue holds what was pushed and not popped yet, and threads sleep only where that is nothing.
pub record IsFifo (h : History) : Type 0 where
  pub content : List ℕ
  pub queue : IsQueue h.sync.memory h.sync.queue content
  pub order : h.pushed ≡ h.popped ++ content
  pub pointers : All (λ x. 0 < x) content
  pub valid : h.sync.valid ≡ sync_queue_valid
  pub awake : (h.sync.asleep ≡ []) ⊎ (content ≡ [])

sync_queue_new-IsFifo :
    (memory : Memory)
    → 0 < memory.next_free
    → IsFifo (record { sync = sync_queue_new memory; pushed = []; popped = [] })
unfolding sync_queue_new
sync_queue_new-IsFifo memory free = record {
  content = [];
  queue = queue_init-IsQueue memory free;
  order = refl;
  pointers = tt;
  valid = refl;
  awake = inl refl;
}

All-snoc : (xs : List ℕ) (x : ℕ) → All (λ y. 0 < y) xs → 0 < x → All (λ y. 0 < y) (xs ++ x ∷ [])
All-snoc [] x h pos = (pos, tt)
All-snoc (y ∷ xs) x h pos = (h.0, All-snoc xs x h.1 pos)

cons_ne : (x : ℕ) (xs : List ℕ) → x ∷ xs ≢ []
cons_ne x xs e = absurd (omega (arith, ap length e))

is_valid : (n : ℕ) → n ≡ sync_queue_valid → (n == sync_queue_valid) ≡ true
is_valid n e = (==_iff n sync_queue_valid).1 e

push-IsFifo :
    (h : History) (x : ℕ)
    → 0 < x
    → IsFifo h
    → IsFifo (record h { sync = sync_queue_push x h.sync; pushed = h.pushed ++ x ∷ [] })
unfolding sync_queue_push
push-IsFifo h x pos f =
    rw (is_valid h.sync.valid f.valid, sync_queue_push)
      (record {
        content = f.content ++ x ∷ [];
        queue = queue_push-IsQueue x h.sync.memory h.sync.queue f.content f.queue;
        order = ap (λ xs. xs ++ x ∷ []) f.order ∙ append_assoc h.popped f.content (x ∷ []);
        pointers = All-snoc f.content x f.pointers pos;
        valid = f.valid;
        awake = inl refl;
      })

-- A turn of a thread where there is an element, and where there is none.
turn_some :
    (s : SyncQueue) (thread x : ℕ) (xs : List ℕ)
    → IsQueue s.memory s.queue (x ∷ xs)
    → 0 < x
    → s.valid ≡ sync_queue_valid
    → sync_queue_pop thread s ≡ (some x, record s { queue = (queue_pop s.queue s.memory).1 })
unfolding sync_queue_pop
turn_some s thread x xs q pos v =
    let (first, rest) = queue_pop-IsQueue s.memory s.queue x xs q in
    let proper : (x == 0) ≡ false = ground arith in
    rw (is_valid s.valid v, sync_queue_pop) (rw first (rw proper refl))

turn_none :
    (s : SyncQueue) (thread : ℕ)
    → IsQueue s.memory s.queue []
    → s.valid ≡ sync_queue_valid
    → sync_queue_pop thread s ≡ (none, record s { asleep = thread ∷ s.asleep })
unfolding sync_queue_pop
turn_none s thread q v =
    rw (is_valid s.valid v, sync_queue_pop) (rw (queue_pop_empty s.memory s.queue q) refl)

pop-IsFifo :
    (h : History) (thread x : ℕ)
    → (sync_queue_pop thread h.sync).0 ≡ some x
    → IsFifo h
    → IsFifo (record h { sync = (sync_queue_pop thread h.sync).1; popped = h.popped ++ x ∷ [] })
pop-IsFifo h thread x e f = go f.content f.queue f.order f.pointers f.awake
  where
    go :
        (content : List ℕ)
        → IsQueue h.sync.memory h.sync.queue content
        → h.pushed ≡ h.popped ++ content
        → All (λ y. 0 < y) content
        → (h.sync.asleep ≡ []) ⊎ (content ≡ [])
        → IsFifo (record h { sync = (sync_queue_pop thread h.sync).1; popped = h.popped ++ x ∷ [] })
    go [] q order pointers awake =
        let turn = turn_none h.sync thread q f.valid in
        absurd (none-ne-some x (sym (ap (λ r. r.0) turn) ∙ e))
    go (y ∷ ys) q order pointers awake =
        let turn = turn_some h.sync thread y ys q pointers.0 f.valid in
        let same : y ≡ x = some-injective _ _ (sym (ap (λ r. r.0) turn) ∙ e) in
        subst (λ r. IsFifo (record h { sync = r; popped = h.popped ++ x ∷ [] }))
          (sym (ap (λ r. r.1) turn))
          (record {
            content = ys;
            queue = (queue_pop-IsQueue h.sync.memory h.sync.queue y ys q).1;
            order =
                order ∙ ap (λ k. h.popped ++ k ∷ ys) same ∙ sym (append_assoc h.popped (x ∷ []) ys);
            pointers = pointers.1;
            valid = f.valid;
            awake = elim awake [ inl a ↦ inl a | inr nil ↦ absurd (cons_ne y ys nil) ];
          })

sleep-IsFifo :
    (h : History) (thread : ℕ)
    → (sync_queue_pop thread h.sync).0 ≡ none
    → IsFifo h
    → IsFifo (record h { sync = (sync_queue_pop thread h.sync).1 })
sleep-IsFifo h thread e f = go f.content f.queue f.order f.pointers
  where
    go :
        (content : List ℕ)
        → IsQueue h.sync.memory h.sync.queue content
        → h.pushed ≡ h.popped ++ content
        → All (λ y. 0 < y) content
        → IsFifo (record h { sync = (sync_queue_pop thread h.sync).1 })
    go [] q order pointers =
        subst (λ r. IsFifo (record h { sync = r }))
          (sym (ap (λ r. r.1) (turn_none h.sync thread q f.valid)))
          (record {
            content = [];
            queue = q;
            order = order;
            pointers = tt;
            valid = f.valid;
            awake = inr refl;
          })
    go (y ∷ ys) q order pointers =
        let turn = turn_some h.sync thread y ys q pointers.0 f.valid in
        absurd (none-ne-some y (sym e ∙ ap (λ r. r.0) turn))

append_nil_left : (before after : List ℕ) (thread : ℕ) → before ++ thread ∷ after ≢ []
append_nil_left [] after thread e = cons_ne thread after e
append_nil_left (x ∷ before) after thread e = cons_ne x (before ++ thread ∷ after) e

Step-IsFifo : {s t : History} → Step s t → IsFifo s → IsFifo t
Step-IsFifo (push h x pos) f = push-IsFifo h x pos f
Step-IsFifo (pop h thread x e) f = pop-IsFifo h thread x e f
Step-IsFifo (sleep h thread e) f = sleep-IsFifo h thread e f
Step-IsFifo (wake h before after thread e) f = record {
  content = f.content;
  queue = f.queue;
  order = f.order;
  pointers = f.pointers;
  valid = f.valid;
  awake = elim (f.awake) [
    | inl none_asleep ↦ absurd (append_nil_left before after thread (sym e ∙ none_asleep))
    | inr nil ↦ inr nil
  ];
}

-- After any steps of any threads from a new shared queue, with pushes of pointers that are not
-- NULL, the elements pushed are the elements popped and then those that the linked queue holds, in
-- order, and no thread sleeps where it holds any.
pub Reach-IsFifo :
    (memory : Memory) (h : History)
    → 0 < memory.next_free
    → Reach (record { sync = sync_queue_new memory; pushed = []; popped = [] }) h
    → IsFifo h
Reach-IsFifo memory h free here = sync_queue_new-IsFifo memory free
Reach-IsFifo memory h free (next steps step) = Step-IsFifo step (Reach-IsFifo memory _ free steps)

-- In every state that threads can reach from a new shared queue, with pushes of pointers that are
-- not NULL, where the queue is not empty: no thread is asleep, and the next turn of any thread in
-- sync_queue_pop takes an element.
pub Reach-sync_queue_pop :
    (memory : Memory) (h : History) (thread : ℕ)
    → 0 < memory.next_free
    → Reach (record { sync = sync_queue_new memory; pushed = []; popped = [] }) h
    → 0 < queue_size h.sync.queue
    → (h.sync.asleep ≡ []) × ((x : ℕ) × ((sync_queue_pop thread h.sync).0 ≡ some x))
unfolding queue_size
Reach-sync_queue_pop memory h thread free steps some_left =
    let f = Reach-IsFifo memory h free steps in go f.content f.queue f.pointers f.valid f.awake
  where
    go :
        (content : List ℕ)
        → IsQueue h.sync.memory h.sync.queue content
        → All (λ y. 0 < y) content
        → h.sync.valid ≡ sync_queue_valid
        → (h.sync.asleep ≡ []) ⊎ (content ≡ [])
        → (h.sync.asleep ≡ []) × ((x : ℕ) × ((sync_queue_pop thread h.sync).0 ≡ some x))
    go [] q pointers valid awake = absurd (omega (arith, q.counted, some_left))
    go (y ∷ ys) q pointers valid awake = (
      elim awake [ inl a ↦ a | inr nil ↦ absurd (cons_ne y ys nil) ],
      (y, ap (λ r. r.0) (turn_some h.sync thread y ys q pointers.0 valid)),
    )
