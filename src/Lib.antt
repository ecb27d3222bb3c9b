-- ===== src/Lib.antt =====
-- SysRT, a simulator of real-time operating systems that runs on SystemC: the code under src/ of
-- the repository, modelled operation by operation.
--
-- The parts. A task (src/task.cpp) runs a sequence of instructions (src/exeinstr.cpp) for each of
-- its arrivals, which come from a timer, an interrupt (src/interrupt.cpp) or, in a graph of tasks,
-- from the ends of its parents (src/dagnode.cpp). It tells its kernel of arrivals and ends. A
-- kernel keeps the ready tasks in the queue of a scheduler (src/scheduler.cpp with fpsched,
-- edfsched, fifosched, rrsched, npedf and pfair_scheduler), takes the first one, and makes a
-- context switch to it: RTKernel (src/kernel.cpp) on one processor, MRTKernel (src/mrtkernel.cpp)
-- on several with one queue, Parti_Mrtkernel (src/parti_mrtkernel.cpp) on several with a queue for
-- each. A processor (src/cpu.cpp) has levels of speed. Resource managers (src/fcfsresmanager.cpp,
-- src/piresman.cpp), which wait and signal instructions call (src/waitinstr.cpp), suspend and
-- activate tasks through the kernel, and threshold instructions (src/threinstr.cpp,
-- src/schedinstr.cpp) change their priority. The simulation is set up from strings
-- (src/strtoken.cpp) and random variables (src/randomvar.cpp), by factories that know the classes
-- by name (src/factory.hpp, src/reginstr.cpp, src/regvar.cpp, src/regsched.cpp).
--
-- The files.
--   Common         helpers: Boolean tests on numbers, lists, maps, ints, and Run, the ways a call ends.
--   Sim            sc_time and sc_event of SystemC, as parameters and as calls that are emitted.
--   PList          priority_list, with its order and its erasure.
--   TaskModel      TaskModel and its subclasses, and the comparison of the queue.
--   Scheduler      the ready queue: Invariant, Unqueued, Selection, Threshold, Notify, RoundRobin,
--                  Turns (rounds), NonPreemptive, Notified, Members.
--   Kernel         RTKernel: Invariant (handlers), Dispatch (choice and switch), Cycle (histories),
--                  Tracks (who stays queued).
--   Resource       Resource; Fcfs with Fcfs.Line, Waiting, Asking and Handing; Inheritance with
--                  Inheritance.Protocol; Managed (RTKernel with a manager).
--   MultiKernel    MRTKernel: Cpu (handlers), Coherent, Events, Lookup, Handlers (the invariant),
--                  Arrival, Exclusion (histories), Accessors, Stale (what a cancelled switch leaves),
--                  Dispatch and Enough (the loops of dispatch()).
--   Partition      Parti_Mrtkernel and partition_scheduler: Refinement to RTKernel, Suspension,
--                  Local and Switching (one handler), Isolation (histories), Simulation.
--   Task           Task: Index (constructors and find), Events, Kills, Members, Arrivals (the
--                  buffer), Instructions (one instance).
--   DagNode        DagNode: Precedence.
--   ExecInstr      ExecInstr: Accounting.
--   KernelInstr    ThreInstr and SchedInstr with their task and RTKernel: Ends; SuspendInstr: Suspend.
--   Closed         RTKernel with its tasks and their events: Turns (who executes), Calls, Kernels,
--                  Written, Queueing, Instances and Arriving (the handlers), Safety, Places
--                  (of instructions), Progress and Service (histories).
--   SyncInstr      WaitInstr and SignalInstr with their task, RTKernel and FCFSResManager: Steps,
--                  History and Progress (histories).
--   Interrupt      Interrupt: Burst.
--   StrToken       parse_util: Find, Instructions, Params, Nested, Open, Split.
--   Factory        the factories and Task::insertCode: Registry, Numbers (of the C library), Variables,
--                  Instructions and Schedulers (what is registered), Code, Written (printed programs).
--   RandomVar      RandomGen and DetVar: Congruence, Replay, File; Distribution: Poisson, Normal.
--   Cpu            the levels of a processor: Speed; uniformCPUFactory: Uniform.
--   Pfair          pfair_model and pfair_scheduler: Quantum (notify).
--   Tests          the theorems at concrete inputs.
--
-- How code and model correspond. An object is a record with the fields of its class, a handler a
-- function from the state to the state and to the calls that it makes of events, kernel and
-- instructions, in order. Tasks, processors and resources are numbers that stand for pointers,
-- `none` is NULL, and a map is a function. A call ends in `ok`, in an exception, in `fault` for
-- undefined behaviour, or in `hang` for a loop that does not end. Time is the argument `now`.
-- sc_time is 64 bits wide, its sum and difference are exact where they fit, and the way through a
-- double is exact below 2^53; an int is its 32 bits. A double is an element of a type with
-- operations (Doubles, Reals, Floats); what a text is looked up as, a task, a double or a file, is
-- the record Outside of functions.
--
-- Fuel. split_instr goes round once for each semicolon and has one more than the length of the
-- string, as split has with its separators; split_param has two more than the length, and each
-- iteration without an unclosed parenthesis moves on by a character. NormalVar::get draws pairs
-- until one is accepted, and has the number of rounds as fuel. The other loops are structural.
--
-- Not modelled. SystemC with its delivery of events; schedule_next_quantum of the Pfair scheduler,
-- which clears round_scheduled of models that stand in the ordered queue, so that where the
-- insertions behind it put a task is left to the shape of the tree; the registration of tasks;
-- output and statistics.
pub mod Common
pub mod Sim
pub mod PList
pub mod TaskModel
pub mod Scheduler
pub mod Kernel
pub mod Resource
pub mod MultiKernel
pub mod Tests
pub mod ExecInstr
pub mod Task
pub mod StrToken
pub mod RandomVar
pub mod Partition
pub mod Interrupt
pub mod DagNode
pub mod KernelInstr
pub mod SyncInstr
pub mod Factory
pub mod Cpu
pub mod Pfair
pub mod Closed
