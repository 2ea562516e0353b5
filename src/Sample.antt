-- ===== src/Sample.antt =====
-- A kernel to try the operations on: task 0 runs on CPU 0, task 1 is ready, and tasks 2 and 3 wait in
-- the queue at address 7, that of the futex at 64, the second until tick 5.
use dragoon_kernel.Prelude.{ℕ, List, [], ◌∷◌, none, some, true, false, ltb, ◌==◌, if◌then◌else◌}
use dragoon_kernel.Prelude.Int.{pos, minus_one}
use dragoon_kernel.Cap.{unset}
use dragoon_kernel.Kernel.{
  Kernel, Task, TaskState, dead, ready, running, blocked, TaskContext, WqEntry, IpcEndpoint,
  IpcMessage,
}

abbrev zero_context : TaskContext
zero_context = record {
  x19 = 0;
  x20 = 0;
  x21 = 0;
  x22 = 0;
  x23 = 0;
  x24 = 0;
  x25 = 0;
  x26 = 0;
  x27 = 0;
  x28 = 0;
  x29 = 0;
  x30 = 0;
  sp = 0;
}

abbrev state_at : ℕ → TaskState
state_at i = if i == 0 then running else if i == 1 then ready else if ltb i 4 then blocked else dead

abbrev pub task_at : ℕ → Task
task_at i = record {
  id = i;
  state = state_at i;
  name = [];
  ctx = zero_context;
  stack_base = 0;
  space = record { pgd = none; asid = 0 };
  cap_table = λ c. minus_one;
  num_caps = 0;
  wakeup_reason = pos 0;
}

abbrev pub entry_at : ℕ → WqEntry
entry_at i =
    if i == 0
    then record { task_id = 2; timeout_tick = 0; next = some 1; in_use = true; owner = some 7 }
    else if i == 1
    then record { task_id = 3; timeout_tick = 5; next = none; in_use = true; owner = some 7 }
    else record { task_id = 0; timeout_tick = 0; next = none; in_use = false; owner = none }

abbrev pub no_message : IpcMessage
no_message = record { data0 = 0; data1 = 0; data2 = 0; data3 = 0; cap_transfer = minus_one }

abbrev pub idle_endpoint : IpcEndpoint
idle_endpoint = record {
  active = true;
  sender_task = none;
  receiver_task = none;
  pending_msg = no_message;
  has_pending = false;
}

abbrev pub sample : Kernel
sample = record {
  vm = record {
    mm = record { memory = λ a. 0; page_bitmap = λ i. 0; total_pages = 0; used_pages = 0 };
    asid_bitmap = λ i. 1;
  };
  caps = record {
    cap_pool = λ i. record { type = 0; refcount = 0; payload = unset };
    cap_pool_used = λ i. false;
  };
  tasks = task_at;
  num_tasks = pos 4;
  percpu = λ c. record {
    cpu_id = c;
    current_task_id = if c == 0 then some 0 else none;
    reschedule_needed = false;
  };
  head = λ q. if q == 7 then some 0 else none;
  wq_pool = entry_at;
  ftable = λ i. record { addr = 64; active = i == 7 };
  endpoints = λ i. idle_endpoint;
  tick_count = 5;
}

-- The lines of the queues of `sample`.
abbrev pub sample_line : ℕ → List ℕ
sample_line q = if q == 7 then 0 ∷ 1 ∷ [] else []
