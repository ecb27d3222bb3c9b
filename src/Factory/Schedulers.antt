-- ===== src/Factory/Schedulers.antt =====
-- src/regsched.cpp: the schedulers that the factory makes.
use sys_rt.Common.{[]}
use sys_rt.Factory.{FnRegistry, CreateFn, codes, reg_create_fn}

module _ {S : Type 0} where
  -- __regsched_init, of the createInstance functions of the three classes.
  unfoldable pub sched_registry : CreateFn S → CreateFn S → CreateFn S → FnRegistry S
  unfolding reg_create_fn
  sched_registry fifo fp edf =
      reg_create_fn (codes "EDFSched") edf
        (reg_create_fn (codes "FPSched") fp (reg_create_fn (codes "FIFOSched") fifo []))
