-- ===== src/Resource.antt =====
-- src/resource.hpp, resource.cpp: a resource with a number of units; src/resmanager.hpp: what a
-- resource manager uses of the kernel, as an interface that each kernel fills.
pub mod Fcfs
pub mod Inheritance
pub mod Managed
use sys_rt.Common.{ℕ, ◌+◌, ◌-◌, ◌%◌, ◌^◌, Bool, Option, none, some, List, [], ◌∷◌, Run, ◌==◌}
use sys_rt.TaskModel.{TaskAttrs}
use sys_rt.Scheduler.{Scheduler}
use sys_rt.Kernel
use sys_rt.Kernel.{Kernel}

-- `available` is an int, as its 32 bits.
pub record Resource : Type 0 where
  pub total : ℕ
  pub available : ℕ
  pub owner : Option ℕ

unfoldable pub new_resource : ℕ → Resource
new_resource n = record { total = n; available = n; owner = none }

unfoldable pub lock : Resource → ℕ → ℕ → Resource
lock r t n = record r { available = (r.available + (2 ^ 32 - n)) % 2 ^ 32; owner = some t }

unfoldable pub unlock : Resource → ℕ → Resource
unlock r n = record r { available = (r.available + n) % 2 ^ 32; owner = none }

unfoldable pub is_locked : Resource → Bool
is_locked r = r.available == 0

-- AbsKernel, as far as the managers call it, with the scheduler that setKernel hands them.
pub record AbsKernel (K : Type 0) : Type 0 where
  pub sched : K → Scheduler
  pub with_sched : K → Scheduler → K
  pub suspend : K → ℕ → Run K
  pub activate : ℕ → K → ℕ → Run K

-- RTKernel as an AbsKernel.
abbrev pub rt_kernel : (ℕ → TaskAttrs) → AbsKernel Kernel
rt_kernel env = record {
  sched = λ k. k.sched;
  with_sched = λ k s. record k { sched = s };
  suspend = Kernel.suspend;
  activate = Kernel.activate env;
}
