-- ===== src/Timer.antt =====
-- kernel/timer.c: the tick. The timer's registers and the controller's are hardware.
use dragoon_kernel.Prelude.{ℕ, ◌+◌, ◌%◌, ◌^◌, true, update, ◌==◌, if◌then◌else◌}
use dragoon_kernel.Kernel.{Kernel}
use dragoon_kernel.WaitQueue.{wq_tick}

-- `timer_handler` on a CPU: only CPU 0 counts ticks and looks for timeouts.
pub timer_handler : ℕ → Kernel → Kernel
timer_handler cpu k =
    let k' =
      if cpu == 0 then wq_tick (record k { tick_count = (k.tick_count + 1) % 2 ^ 64 }) else k in
    record k' {
      percpu = update k'.percpu cpu (record (k'.percpu cpu) { reschedule_needed = true });
    }
