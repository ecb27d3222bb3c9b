-- ===== src/Tests/Tasks.antt =====
-- The theorems of the making of tasks and of their events: the names are numbers, and two periodic tasks have
-- the same one.
use sys_rt.Common.{ℕ, ◌≡◌, true, some, [], ◌∷◌, map, ok, arith, ltb, List, All, IsDistinct}
use sys_rt.Task.Index.{
  TaskArgs, TaskClass, periodic, periodic_by_default, same_key, make_all, latest, IsFresh,
  make_all-Fresh, find,
}
use sys_rt.Task.Events.{Reads, fire, handler, dead_evt, fire-handler}
use sys_rt.Tests.Samples.{clock, running}

abbrev no_tasks : TaskClass ℕ
no_tasks = record { task_id = 0; index = [] }

-- Addresses with the arguments of the tasks.
abbrev three : List (ℕ × TaskArgs ℕ)
three =
    (100, periodic 20 0 7 100)
    ∷ (200, periodic_by_default 0 50)
    ∷ (300, periodic_by_default 0 60)
    ∷ []

one_key : (a b : ℕ) → same_key ltb a b ≡ true → (z : ℕ) → same_key ltb a z ≡ same_key ltb b z
unfolding same_key
one_key a b h z = ground (arith, h)

make_all-Fresh_example :
    IsDistinct (map (λ t. t.number) (make_all ltb no_tasks three).1)
    × All (IsFresh ltb) (make_all ltb no_tasks three).1
    × ((name : ℕ)
        → find ltb (make_all ltb no_tasks three).0 name
          ≡ latest ltb name three (find ltb no_tasks name))
make_all-Fresh_example = make_all-Fresh ltb three no_tasks one_key (omega arith)

last_of_name : find ltb (make_all ltb no_tasks three).0 0 ≡ some 300
unfolding same_key periodic_by_default
last_of_name = make_all-Fresh_example.2 0

abbrev reads : Reads
reads = record {
  sc = clock;
  now = 30;
  iat_sample = 0;
  cpu = some 0;
  old_cpu = some 0;
  instr_time = 2;
}

missed_and_lives : fire dead_evt reads running ≡ ok (record running { deadline_miss = 1 }, [])
unfolding handler
missed_and_lives = fire-handler dead_evt reads running
