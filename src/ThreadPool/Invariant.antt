-- ===== src/ThreadPool/Invariant.antt =====
-- src/utils/ThreadPool.cpp: what holds in every run of the pool: the count of active tasks, and the order
-- in which tasks are taken.
use http_framework.Prelude.{
  ℕ, ◌+◌, ◌≡◌, refl, Option, none, some, List, [], ◌∷◌, ◌++◌, get_elem?, length,
}
use http_framework.ThreadPool.{
  Worker, at_head, waiting, busy, exited, ThreadPool, new_thread_pool, enqueue_detached, queued,
  wake, work, put_worker, advance, begin_shutdown,
}

module _ {T : Type 0} where
  abbrev pub is_busy : Worker T → ℕ
  is_busy (busy task) = 1
  is_busy at_head = 0
  is_busy waiting = 0
  is_busy exited = 0

  -- How many workers are in a task.
  unfoldable pub busy_count : List (Worker T) → ℕ
  busy_count [] = 0
  busy_count (w ∷ workers) = is_busy w + busy_count workers

  -- The task that the i-th worker's next step takes off the queue.
  abbrev taken_by : Option (Worker T) → List T → List T
  taken_by (some waiting) (task ∷ rest) = task ∷ []
  taken_by (some waiting) [] = []
  taken_by (some at_head) tasks = []
  taken_by (some (busy task)) tasks = []
  taken_by (some exited) tasks = []
  taken_by none tasks = []

  -- A run from a new pool: the pool, the tasks submitted so far and the tasks taken so far, in order.
  pub data Run (thread_count : ℕ) : ThreadPool T → List T → List T → Type 0 where
    start : Run thread_count (new_thread_pool thread_count) [] []
    submit :
        {p q : ThreadPool T} {submitted taken : List T} (task : T)
        → Run thread_count p submitted taken
        → enqueue_detached (some task) p ≡ queued q
        → Run thread_count q (submitted ++ task ∷ []) taken
    step :
        {p : ThreadPool T} {submitted taken : List T} (i : ℕ)
        → Run thread_count p submitted taken
        → Run thread_count
            (advance i p)
            submitted
            (taken ++ taken_by (get_elem? p.workers i) p.tasks)
    stop :
        {p : ThreadPool T} {submitted taken : List T}
        → Run thread_count p submitted taken
        → Run thread_count (begin_shutdown p) submitted taken

  pub record IsConsistent (p : ThreadPool T) (submitted taken : List T) : Type 0 where
    pub active : p.active_tasks ≡ length p.tasks + busy_count p.workers
    pub order : submitted ≡ taken ++ p.tasks

module _ {T : Type 0} where
  work-workers : (w : Worker T) (p : ThreadPool T) → (work w p).1.workers ≡ p.workers
  unfolding work wake
  work-workers at_head p = refl
  work-workers waiting p = wake-workers p.tasks
    where
      wake-workers : (tasks : List T) → (wake tasks p).1.workers ≡ p.workers
      wake-workers [] = refl
      wake-workers (task ∷ rest) = refl
  work-workers (busy task) p = refl
  work-workers exited p = refl

  pub advance-none : (i : ℕ) (p : ThreadPool T) → get_elem? p.workers i ≡ none → advance i p ≡ p
  unfolding advance
  advance-none i p e = rw (advance, e) refl

  pub advance-some :
      (i : ℕ) (p : ThreadPool T) (w : Worker T)
      → get_elem? p.workers i ≡ some w
      → advance i p ≡ record (work w p).1 { workers = put_worker i (work w p).0 p.workers }
  unfolding advance
  advance-some i p w e = rw (advance, e) refl
