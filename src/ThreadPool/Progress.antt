-- ===== src/ThreadPool/Progress.antt =====
-- src/utils/ThreadPool.cpp: what further steps of the workers bring about: a running pool works its queue
-- off, and a pool that was shut down does not.
use http_framework.Prelude.{
  ℕ, zero, suc, ◌-◌, ◌≡◌, ◌≢◌, refl, ap, ◌∙◌, Bool, true, false, Option, none, some, List, [], ◌∷◌,
  get_elem?, length, arith, if◌then◌else◌, subst,
}
use http_framework.ThreadPool.{
  Worker, at_head, waiting, busy, exited, ThreadPool, wake, work, put_worker, advance, is_finished,
}
use http_framework.ThreadPool.Invariant.{advance-none, advance-some}

-- Three steps of one worker, n times.
abbrev pub thrice : ℕ → ℕ → List ℕ
thrice zero i = []
thrice (suc n) i = i ∷ i ∷ i ∷ thrice n i

module _ {T : Type 0} where
  -- The steps of a schedule: which worker comes next.
  unfoldable pub advance_all : List ℕ → ThreadPool T → ThreadPool T
  advance_all [] p = p
  advance_all (i ∷ schedule) p = advance_all schedule (advance i p)

  abbrev IsAway : Worker T → Type 0
  IsAway w = w ≢ waiting

  -- No worker is in the wait for a task.
  abbrev pub AllAway : List (Worker T) → Type 0
  AllAway [] = Unit {0}
  AllAway (w ∷ workers) = IsAway w × AllAway workers

  AllAway-get_elem? :
      (workers : List (Worker T)) (i : ℕ) (w : Worker T)
      → AllAway workers
      → get_elem? workers i ≡ some w
      → IsAway w
  AllAway-get_elem? [] i w away h = cc
  AllAway-get_elem? (v ∷ workers) zero w away h = λ e. away.0 (cc)
  AllAway-get_elem? (v ∷ workers) (suc i) w away h = AllAway-get_elem? workers i w away.1 h

  AllAway-put_worker :
      (i : ℕ) (w : Worker T) (workers : List (Worker T))
      → IsAway w
      → AllAway workers
      → AllAway (put_worker i w workers)
  unfolding put_worker
  AllAway-put_worker i w [] h away = tt
  AllAway-put_worker zero w (v ∷ workers) h away = (h, away.1)
  AllAway-put_worker (suc i) w (v ∷ workers) h away =
      (away.0, AllAway-put_worker i w workers h away.1)

  pub record IsStranded (p : ThreadPool T) (tasks : List T) : Type 0 where
    pub halted : p.running ≡ false
    pub away : AllAway p.workers
    pub same_tasks : p.tasks ≡ tasks

  work-IsStranded :
      (w : Worker T) (p : ThreadPool T)
      → p.running ≡ false
      → IsAway w
      → ((work w p).1.running ≡ false) × IsAway (work w p).0 × ((work w p).1.tasks ≡ p.tasks)
  unfolding work wake
  work-IsStranded at_head p off away = (off, λ e. ground arith, refl)
  work-IsStranded waiting p off away = absurd (away refl)
  work-IsStranded (busy task) p off away = (off, λ e. cc, refl)
  work-IsStranded exited p off away = (off, λ e. cc, refl)

  advance-IsStranded :
      (i : ℕ) (p : ThreadPool T) (tasks : List T) (o : Option (Worker T))
      → get_elem? p.workers i ≡ o
      → IsStranded p tasks
      → IsStranded (advance i p) tasks
  advance-IsStranded i p tasks none e st = rw (advance-none i p e) st
  advance-IsStranded i p tasks (some w) e st =
      let (off, gone, same) =
        work-IsStranded w p st.halted (AllAway-get_elem? p.workers i w st.away e) in
      rw (advance-some i p w e) (record {
        halted = off;
        away = AllAway-put_worker i (work w p).0 p.workers gone st.away;
        same_tasks = same ∙ st.same_tasks;
      })

  advance_all-IsStranded :
      (schedule : List ℕ) (p : ThreadPool T) (tasks : List T)
      → IsStranded p tasks
      → IsStranded (advance_all schedule p) tasks
  unfolding advance_all
  advance_all-IsStranded [] p tasks st = st
  advance_all-IsStranded (i ∷ schedule) p tasks st =
      advance_all-IsStranded schedule (advance i p) tasks
        (advance-IsStranded i p tasks (get_elem? p.workers i) refl st)

  -- Where shutdown finds tasks in the queue and no worker in the wait (each is in a task, before the
  -- test of the loop, or out), no steps of the workers take any of them: the queue stays as it is, and
  -- the condition of waitForAllTasks never holds.
  pub advance_all-stranded :
      (schedule : List ℕ) (p : ThreadPool T) (task : T) (rest : List T)
      → p.running ≡ false
      → AllAway p.workers
      → p.tasks ≡ task ∷ rest
      → ((advance_all schedule p).tasks ≡ task ∷ rest)
        × (is_finished (advance_all schedule p) ≡ false)
  unfolding is_finished
  advance_all-stranded schedule p task rest off away queue =
      let left : (advance_all schedule p).tasks ≡ task ∷ rest =
        (advance_all-IsStranded schedule p (task ∷ rest)
          (record { halted = off; away = away; same_tasks = queue })).same_tasks in
      (left, rw left refl)

  get_elem?-put_worker :
      (i : ℕ) (w v : Worker T) (workers : List (Worker T))
      → get_elem? workers i ≡ some v
      → get_elem? (put_worker i w workers) i ≡ some w
  unfolding put_worker
  get_elem?-put_worker i w v [] h = cc
  get_elem?-put_worker zero w v (u ∷ workers) h = refl
  get_elem?-put_worker (suc i) w v (u ∷ workers) h = get_elem?-put_worker i w v workers h

  record IsReady (i : ℕ) (p : ThreadPool T) (w : Worker T) (tasks : List T) (active : ℕ)
      : Type 0 where
    on : p.running ≡ true
    worker : get_elem? p.workers i ≡ some w
    queue : p.tasks ≡ tasks
    count : p.active_tasks ≡ active

  work_waiting :
      (p : ThreadPool T) (task : T) (rest : List T)
      → p.tasks ≡ task ∷ rest
      → work waiting p ≡ (busy task, record p { tasks = rest })
  unfolding work wake
  work_waiting p task rest e = ap (λ ts. wake ts p) e

  work_at_head : (p : ThreadPool T) → p.running ≡ true → work at_head p ≡ (waiting, p)
  unfolding work
  work_at_head p e = ap (λ (b : Bool). (if b then waiting else exited, p)) e

  IsReady-step :
      (i : ℕ) (p q : ThreadPool T) (w v : Worker T) (tasks rest : List T) (active left : ℕ)
      → IsReady i p w tasks active
      → work w p ≡ (v, q)
      → q.running ≡ p.running
      → q.tasks ≡ rest
      → q.active_tasks ≡ left
      → IsReady i (advance i p) v rest left
  IsReady-step i p q w v tasks rest active left r e on queue count =
      rw (advance-some i p w r.worker, e)
        (record {
          on = on ∙ r.on;
          worker = get_elem?-put_worker i v w p.workers r.worker;
          queue = queue;
          count = count;
        })

  -- A task is taken, done and counted off by three steps of one worker.
  three_steps :
      (i : ℕ) (p : ThreadPool T) (task : T) (rest : List T) (active : ℕ)
      → IsReady i p waiting (task ∷ rest) active
      → IsReady i (advance i (advance i (advance i p))) waiting rest (active - 1)
  unfolding work
  three_steps i p task rest active r =
      let taken = record p { tasks = rest } in
      let r1 : IsReady i (advance i p) (busy task) rest active =
        IsReady-step i p taken waiting (busy task) (task ∷ rest) rest active active r
          (work_waiting p task rest r.queue) refl refl r.count in
      let p1 = advance i p in
      let done = record p1 { active_tasks = p1.active_tasks - 1 } in
      let r2 : IsReady i (advance i p1) at_head rest (active - 1) =
        IsReady-step i p1 done (busy task) at_head rest rest active (active - 1) r1 refl refl
          r1.queue (ap (λ n. n - 1) r1.count) in
      let p2 = advance i p1 in
      IsReady-step i p2 p2 at_head waiting rest rest (active - 1) (active - 1) r2
        (work_at_head p2 r2.on) refl r2.queue r2.count

  drain :
      (i : ℕ) (tasks : List T) (p : ThreadPool T)
      → IsReady i p waiting tasks (length tasks)
      → IsReady i (advance_all (thrice (length tasks) i) p) waiting [] 0
  unfolding advance_all
  drain i [] p r = r
  drain i (task ∷ rest) p r =
      let one_less : length (task ∷ rest) - 1 ≡ length rest = omega arith in
      drain i rest (advance i (advance i (advance i p))) (
        subst (λ n. IsReady i (advance i (advance i (advance i p))) waiting rest n) one_less
          (three_steps i p task rest (length (task ∷ rest)) r))

  -- In a running pool where no worker is in a task and one is in the wait, three steps of that worker
  -- for each task of the queue do all of them: waitForAllTasks then returns.
  pub advance_all-drains :
      (i : ℕ) (p : ThreadPool T)
      → p.running ≡ true
      → get_elem? p.workers i ≡ some waiting
      → p.active_tasks ≡ length p.tasks
      → is_finished (advance_all (thrice (length p.tasks) i) p) ≡ true
  unfolding is_finished
  advance_all-drains i p on worker count =
      let r =
        drain i p.tasks p (record { on = on; worker = worker; queue = refl; count = count }) in
      rw (r.queue, r.count) refl
