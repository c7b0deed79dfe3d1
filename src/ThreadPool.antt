-- ===== src/ThreadPool.antt =====
-- src/utils/ThreadPool.cpp and include/utils/ThreadPool.h: the queue of tasks and the workers. A task is
-- a value of `T`; what it does belongs to the caller, and an exception of its own is caught by the
-- worker. Between two points where a worker takes the mutex it is one step, so a run of the pool is a
-- sequence of such steps of the workers, of submissions and of the start of shutdown.
pub mod Invariant
pub mod Progress
mod Tests
use http_framework.Prelude.{
  ℕ, zero, suc, ◌+◌, ◌-◌, ◌≡◌, Bool, true, false, ◌&&◌, Option, none, some, List, [], ◌∷◌, ◌++◌,
  ◌==◌, if◌then◌else◌, is_empty, get_elem?, length,
}

-- Where a worker thread stands in workerFunction: before `while (running_.load())`, in the wait for
-- a task, in a task, or past the loop.
pub data Worker (T : Type 0) : Type 0 where
  at_head : Worker T
  waiting : Worker T
  busy : T → Worker T
  exited : Worker T

pub record ThreadPool (T : Type 0) : Type 0 where
  pub tasks : List T
  -- activeTasks_: the tasks that were submitted and have not ended.
  pub active_tasks : ℕ
  pub running : Bool
  pub workers : List (Worker T)

pub data Refusal : Type 0 where
  empty_task stopped : Refusal

-- A submission, or the exception that it throws.
pub data Submitted (T : Type 0) : Type 0 where
  queued : ThreadPool T → Submitted T
  refused : Refusal → Submitted T

module _ {T : Type 0} where
  abbrev pub at_heads : ℕ → List (Worker T)
  at_heads zero = []
  at_heads (suc n) = at_head ∷ at_heads n

  unfoldable pub new_thread_pool : ℕ → ThreadPool T
  new_thread_pool thread_count = record {
    tasks = [];
    active_tasks = 0;
    running = true;
    workers = at_heads thread_count;
  }

  abbrev pub push_task : T → ThreadPool T → ThreadPool T
  push_task task p = record p { tasks = p.tasks ++ task ∷ []; active_tasks = p.active_tasks + 1 }

  -- An empty std::function is `none`.
  unfoldable pub enqueue_detached : Option T → ThreadPool T → Submitted T
  enqueue_detached none p = refused empty_task
  enqueue_detached (some task) p = if p.running then queued (push_task task p) else refused stopped

  -- Woken in the wait: out of the loop on shutdown with an empty queue, else the front task, else on
  -- waiting.
  unfoldable pub wake : List T → ThreadPool T → Worker T × ThreadPool T
  wake [] p = (if p.running then waiting else exited, p)
  wake (task ∷ rest) p = (busy task, record p { tasks = rest })

  -- workerFunction from one point to the next.
  unfoldable pub work : Worker T → ThreadPool T → Worker T × ThreadPool T
  unfolding wake
  work at_head p = (if p.running then waiting else exited, p)
  work waiting p = wake p.tasks p
  work (busy task) p = (at_head, record p { active_tasks = p.active_tasks - 1 })
  work exited p = (exited, p)

  unfoldable pub put_worker : ℕ → Worker T → List (Worker T) → List (Worker T)
  put_worker i w [] = []
  put_worker zero w (v ∷ workers) = w ∷ workers
  put_worker (suc i) w (v ∷ workers) = v ∷ put_worker i w workers

  -- A step of the i-th worker.
  unfoldable pub advance : ℕ → ThreadPool T → ThreadPool T
  unfolding work put_worker
  advance i p = elim (get_elem? p.workers i) [
    | none ↦ p
    | some w ↦ let (w', p') = work w p in record p' { workers = put_worker i w' p.workers }
  ]

  -- shutdown's store; the joins that follow wait for steps of the workers.
  unfoldable pub begin_shutdown : ThreadPool T → ThreadPool T
  begin_shutdown p = record p { running = false }

  -- The condition that waitForAllTasks waits for.
  unfoldable pub is_finished : ThreadPool T → Bool
  is_finished p = is_empty p.tasks && p.active_tasks == 0

  unfoldable pub queue_size : ThreadPool T → ℕ
  queue_size p = length p.tasks
