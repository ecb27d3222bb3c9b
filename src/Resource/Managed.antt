-- ===== src/Resource/Managed.antt =====
-- src/kernel.cpp: RTKernel with its resource manager. `Manager` is what the kernel calls of a
-- ResManager (src/resmanager.hpp), which the two managers fill; a resource is known by its number
-- in place of its name, and `none` is that no manager is set.
use sys_rt.Common.{
  ℕ, Bool, Option, none, some, Run, ok, throw, ◌>>=◌, res_manager_not_set, if◌then◌else◌,
}
use sys_rt.TaskModel.{TaskAttrs}
use sys_rt.Kernel.{Kernel, dispatch}
use sys_rt.Resource.{rt_kernel}
use sys_rt.Resource.Fcfs
use sys_rt.Resource.Fcfs.{Fcfs}
use sys_rt.Resource.Inheritance
use sys_rt.Resource.Inheritance.{Pir}

-- The arguments are the task, the resource and the number of units.
pub record Manager (M : Type 0) : Type 0 where
  pub request : Kernel → M → ℕ → ℕ → ℕ → Run (Kernel × M × Bool)
  pub release : Kernel → M → ℕ → ℕ → ℕ → Run (Kernel × M)

abbrev pub fcfs_manager : (ℕ → TaskAttrs) → ℕ → Manager Fcfs
fcfs_manager env now = record {
  request = Fcfs.request (rt_kernel env) now;
  release = Fcfs.release (rt_kernel env) now;
}

abbrev pub pir_manager : (ℕ → ℕ) → (ℕ → TaskAttrs) → (ℕ → Bool) → ℕ → Manager Pir
pir_manager from_ps env is_active now = record {
  request = Inheritance.request (rt_kernel env) from_ps env now;
  release = Inheritance.release (rt_kernel env) from_ps env now is_active;
}

module _ {M : Type 0} (manager : Manager M) where
  -- The answer is true if the resource was granted; otherwise the kernel dispatches.
  unfoldable pub request_resource : Kernel → Option M → ℕ → ℕ → ℕ → Run (Kernel × M × Bool)
  unfolding dispatch
  request_resource k none t r n = throw res_manager_not_set
  request_resource k (some m) t r n = do
    (k₁, m₁, ret) ← manager.request k m t r n
    ok (if ret then k₁ else dispatch k₁, m₁, ret)

  unfoldable pub release_resource : Kernel → Option M → ℕ → ℕ → ℕ → Run (Kernel × M)
  unfolding dispatch
  release_resource k none t r n = throw res_manager_not_set
  release_resource k (some m) t r n = do (k₁, m₁) ← manager.release k m t r n; ok (dispatch k₁, m₁)
