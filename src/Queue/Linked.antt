-- ===== src/Queue/Linked.antt =====
-- client/lib/queue.c: the linked queue is a list, to whose end an element is pushed and from whose front
-- one is popped.
use tcbackup.Prelude.{
  ℕ, ◌+◌, ◌<◌, ◌≡◌, refl, sym, ap, ◌∙◌, ◌≢◌, inl, inr, true, false, List, [], ◌∷◌, ◌++◌, arith,
  length, length-append, ◌==◌, Bool-cases, ==_iff, ==_iff,
}
use mathlib.Core.Path.{subst}
use tcbackup.Queue.{Cell, Memory, Queue, queue_init, store, queue_push, queue_pop}

-- The cells from one address to the last one hold these elements. An address is below `next_free`.
unfoldable pub IsLinked : Memory → ℕ → ℕ → List ℕ → Type 0
IsLinked memory p last [] = p ≡ 0
IsLinked memory p last (x ∷ []) =
    (0 < p)
    × (p < memory.next_free)
    × ((memory.cells p).element ≡ x)
    × ((memory.cells p).next ≡ 0)
    × (p ≡ last)
IsLinked memory p last (x ∷ y ∷ xs) =
    (0 < p)
    × (p < memory.next_free)
    × ((memory.cells p).element ≡ x)
    × (p ≢ last)
    × IsLinked memory (memory.cells p).next last (y ∷ xs)

-- The queue in this memory is this list.
pub record IsQueue (memory : Memory) (queue : Queue) (xs : List ℕ) : Type 0 where
  pub linked : IsLinked memory queue.first queue.last xs
  pub counted : queue.elem_num ≡ length xs
  pub allocated : 0 < memory.next_free

pub queue_init-IsQueue : (memory : Memory) → 0 < memory.next_free → IsQueue memory queue_init []
unfolding queue_init IsLinked
queue_init-IsQueue memory h = record { linked = refl; counted = refl; allocated = h }

store_here : (p : ℕ) (cell : Cell) (cells : ℕ → Cell) → store p cell cells p ≡ cell
unfolding store
store_here p cell cells = rw ((==_iff p p).1 refl) refl

store_other :
    (address p : ℕ) (cell : Cell) (cells : ℕ → Cell)
    → p ≢ address
    → store address cell cells p ≡ cells p
unfolding store
store_other address p cell cells ne = elim (Bool-cases (p == address)) [
  | inl e ↦ absurd (ne ((==_iff p address).0 e))
  | inr e ↦ rw e refl
]

-- The memory with a new cell that the last one leads to.
abbrev lengthened : Memory → ℕ → ℕ → Memory
lengthened memory last element =
    let item = memory.next_free in
    let cells = store item (record { next = 0; element = element }) memory.cells in
    record {
      cells = store last (record { next = item; element = (cells last).element }) cells;
      next_free = item + 1;
    }

module _ (memory : Memory) (last element : ℕ) (before : last < memory.next_free) where
  lengthened_other :
      (p : ℕ)
      → p ≢ last
      → p < memory.next_free
      → (lengthened memory last element).cells p ≡ memory.cells p
  lengthened_other p ne old =
      store_other last p _ _ ne
      ∙ store_other memory.next_free p _ memory.cells (λ e. absurd (omega arith))

  lengthened_last :
      (lengthened memory last element).cells last
      ≡ record { next = memory.next_free; element = (memory.cells last).element }
  lengthened_last =
      store_here last _ _
      ∙ ap (λ c. record { next = memory.next_free; element = Cell.element c })
          (store_other memory.next_free last _ memory.cells (λ e. absurd (omega arith)))

  lengthened_item :
      (lengthened memory last element).cells memory.next_free
      ≡ record { next = 0; element = element }
  lengthened_item =
      store_other last memory.next_free _ _ (λ e. absurd (omega arith))
      ∙ store_here memory.next_free _ memory.cells

  lengthened-IsLinked :
      (p x : ℕ) (xs : List ℕ)
      → 0 < memory.next_free
      → IsLinked memory p last (x ∷ xs)
      → IsLinked (lengthened memory last element) p memory.next_free (x ∷ xs ++ element ∷ [])
  unfolding IsLinked
  lengthened-IsLinked p x [] free (pos, old, here, end, same) = (
    pos,
    omega arith,
    ap (λ a. ((lengthened memory last element).cells a).element) same
        ∙ ap (λ c. c.element) lengthened_last
        ∙ ap (λ a. (memory.cells a).element) (sym same)
        ∙ here,
    (λ e. absurd (omega (arith, e))),
    subst (λ n. IsLinked (lengthened memory last element) n memory.next_free (element ∷ []))
        (sym (
          ap (λ a. ((lengthened memory last element).cells a).next) same
          ∙ ap (λ c. c.next) lengthened_last))
        (
          free,
          omega arith,
          ap (λ c. c.element) lengthened_item,
          ap (λ c. c.next) lengthened_item,
          refl,
        ),
  )
  lengthened-IsLinked p x (y ∷ xs) free (pos, old, here, ne, tail) =
      let kept = lengthened_other p ne old in
      (
        pos,
        omega arith,
        ap (λ c. c.element) kept ∙ here,
        (λ e. absurd (omega (arith, e))),
        subst
            (λ n.
              IsLinked (lengthened memory last element) n memory.next_free (y ∷ xs ++ element ∷ []))
            (ap (λ c. c.next) (sym kept))
            (lengthened-IsLinked (memory.cells p).next y xs free tail),
      )

last_allocated :
    (memory : Memory) (p last x : ℕ) (xs : List ℕ)
    → IsLinked memory p last (x ∷ xs)
    → last < memory.next_free
unfolding IsLinked
last_allocated memory p last x [] (pos, old, here, end, same) = omega arith
last_allocated memory p last x (y ∷ xs) (pos, old, here, ne, tail) =
    last_allocated memory (memory.cells p).next last y xs tail

first_allocated :
    (memory : Memory) (p last x : ℕ) (xs : List ℕ) → IsLinked memory p last (x ∷ xs) → 0 < p
unfolding IsLinked
first_allocated memory p last x [] h = h.0
first_allocated memory p last x (y ∷ xs) h = h.0

-- Where the linked queue in memory is a list, it is the list with the element at its end after
-- queue_push.
pub queue_push-IsQueue :
    (element : ℕ) (memory : Memory) (queue : Queue) (xs : List ℕ)
    → IsQueue memory queue xs
    → IsQueue
        (queue_push element queue memory).1
        (queue_push element queue memory).0
        (xs ++ element ∷ [])
unfolding queue_push IsLinked
queue_push-IsQueue element memory queue [] h =
    let fresh : (queue.first == 0) ≡ true = (==_iff queue.first 0).1 h.linked in
    let cell : store memory.next_free (record { next = 0; element = element }) memory.cells
          memory.next_free
        ≡ record { next = 0; element = element } =
      store_here memory.next_free (record { next = 0; element = element }) memory.cells in
    rw (fresh, queue_push)
      (record {
        linked = (h.allocated, omega arith, ap (λ c. c.element) cell, ap (λ c. c.next) cell, refl);
        counted = omega (arith, h.counted);
        allocated = omega arith;
      })
queue_push-IsQueue element memory queue (x ∷ xs) h =
    let old : (queue.first == 0) ≡ false =
      ground (arith, first_allocated memory queue.first queue.last x xs h.linked) in
    rw (old, queue_push)
      (record {
        linked =
            lengthened-IsLinked memory queue.last element
              (last_allocated memory queue.first queue.last x xs h.linked) queue.first x xs
              h.allocated h.linked;
        counted = omega (arith, h.counted, length-append xs (element ∷ []));
        allocated = omega arith;
      })

-- Where the linked queue in memory is a list that is not empty, queue_pop gives its first element,
-- and the queue is the rest afterwards.
pub queue_pop-IsQueue :
    (memory : Memory) (queue : Queue) (x : ℕ) (xs : List ℕ)
    → IsQueue memory queue (x ∷ xs)
    → ((queue_pop queue memory).0 ≡ x) × IsQueue memory (queue_pop queue memory).1 xs
unfolding queue_pop IsLinked
queue_pop-IsQueue memory queue x [] h =
    let some_left : (queue.elem_num == 0) ≡ false = ground (arith, h.counted) in
    rw (some_left, queue_pop)
      (
        h.linked.2,
        record { linked = h.linked.3; counted = omega (arith, h.counted); allocated = h.allocated },
      )
queue_pop-IsQueue memory queue x (y ∷ xs) h =
    let some_left : (queue.elem_num == 0) ≡ false = ground (arith, h.counted) in
    let kept : (queue.last == queue.first) ≡ false = not_last queue.first queue.last h.linked.3 in
    rw (some_left, queue_pop)
      (
        h.linked.2,
        rw kept (record {
          linked = h.linked.4;
          counted = omega (arith, h.counted);
          allocated = h.allocated;
        }),
      )
  where
    not_last : (first last : ℕ) → first ≢ last → (last == first) ≡ false
    not_last first last ne = ground (arith, ne)

pub queue_pop_empty :
    (memory : Memory) (queue : Queue)
    → IsQueue memory queue []
    → queue_pop queue memory ≡ (0, queue)
unfolding queue_pop
queue_pop_empty memory queue h =
    let empty : (queue.elem_num == 0) ≡ true = (==_iff queue.elem_num 0).1 h.counted in
    rw (empty, queue_pop) refl
