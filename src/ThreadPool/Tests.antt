-- ===== src/ThreadPool/Tests.antt =====
-- Runs of a pool of two workers; a task is a number.
use http_framework.Prelude.{ℕ, ◌≡◌, refl, true, false, none, some, List, [], ◌∷◌, arith, length}
use http_framework.ThreadPool.{
  at_head, waiting, busy, ThreadPool, new_thread_pool, enqueue_detached, refused, stopped,
  empty_task, advance, begin_shutdown, is_finished, queue_size,
}
use http_framework.ThreadPool.Progress.{
  advance_all, thrice, advance_all-stranded, advance_all-drains,
}

abbrev idle : ThreadPool ℕ
idle = new_thread_pool 2

-- Two tasks in the queue, the first worker in the wait.
abbrev loaded : ThreadPool ℕ
loaded = record {
  tasks = 7 ∷ 8 ∷ [];
  active_tasks = 2;
  running = true;
  workers = waiting ∷ at_head ∷ [];
}

abbrev halted : ThreadPool ℕ
halted = begin_shutdown (record loaded { workers = at_head ∷ busy 6 ∷ []; active_tasks = 3 })

taken_in_order : (advance 0 loaded).workers ≡ busy 7 ∷ at_head ∷ []
unfolding advance
taken_in_order = refl

refused_when_stopped : enqueue_detached (some 9) halted ≡ refused stopped
unfolding enqueue_detached begin_shutdown
refused_when_stopped = refl

refused_when_empty : enqueue_detached none loaded ≡ refused empty_task
unfolding enqueue_detached
refused_when_empty = refl

queue_size_two : queue_size loaded ≡ 2
unfolding queue_size
queue_size_two = refl

abbrev sent : List ℕ
sent = 7 ∷ []

abbrev nothing : List ℕ
nothing = []

abbrev with_one : ThreadPool ℕ
with_one = record idle { tasks = 7 ∷ []; active_tasks = 1 }

advance_all-stranded_example :
    ((advance_all (0 ∷ 1 ∷ 0 ∷ []) halted).tasks ≡ 7 ∷ 8 ∷ [])
    × (is_finished (advance_all (0 ∷ 1 ∷ 0 ∷ []) halted) ≡ false)
unfolding begin_shutdown
advance_all-stranded_example =
    advance_all-stranded (0 ∷ 1 ∷ 0 ∷ []) halted 7 (8 ∷ []) refl (ground arith) refl

advance_all-drains_example :
    is_finished (advance_all (thrice (length loaded.tasks) 0) loaded) ≡ true
advance_all-drains_example = advance_all-drains 0 loaded refl refl refl
