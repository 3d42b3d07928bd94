-- ===== src/Lib.antt =====
-- Verification library for `spawns`, the workspace of crates that spawns async tasks by thread
-- context: `spawns-core` with its tasks, spawners and runtime lookup.
--
-- The program. `spawn` makes a `Task` and a `JoinHandle` (spawns-core/src/task.rs), and gives the
-- task to the spawner of the innermost `SpawnScope` on this thread (spawns-core/src/spawn.rs), or
-- to a function of an async runtime that is found among the registered `Compat`s
-- (spawns-core/src/compat.rs). The runtime polls the task. The task and the handles share two
-- objects: a `Joint`, through which the result goes to the joiner, and a `Cancellation`, through
-- which a canceller finds the waker of the task's last pending poll.
--
-- The files.
-- - Joint.antt: `Stage`, `JoinResult`, `Joint`, `Joint::wake`, and `JoinHandle`'s poll and drop, a
--   call at a time. Joint/Protocol.antt has the same code a shared access at a time, as the steps
--   of two threads: the task (`wake_step`) and the owner of the handle (`join_step`).
--   Joint/Invariant.antt and its children hold the invariant of the steps, Joint/Safety.antt what
--   follows from it, Joint/Promise.antt what the joint is to somebody who knows nothing of threads,
--   Joint/Atomic.antt that uninterrupted accesses are the call, Joint/Reference.antt the calls
--   without the stage, Joint/Progress.antt what the two threads can still do.
--   Joint/Mutex.antt has the same steps with the mutex around `result`, and Joint/Mutex/Turns.antt
--   what the mutex does to them.
-- - Cancellation.antt: `Cancellation`, a call at a time. Cancellation/Protocol.antt has the same
--   code an access at a time, with one task (`task_step`) and any number of cancel handles
--   (`cancel_step`). Cancellation/Ownership.antt says who owns a box, Cancellation/Invariant.antt
--   and its children that the steps keep it, Cancellation/Once.antt, Cancellation/Bounds.antt,
--   Cancellation/Late.antt, Cancellation/Seen.antt, Cancellation/Safety.antt and
--   Cancellation/Atomic.antt what follows, Cancellation/Alarm.antt and its children what the
--   cancellation is to somebody who knows nothing of pointers, Cancellation/Words.antt the same calls on the words of the pointer, Cancellation/Latest.antt what the task does when each
--   access sees the last value, and Cancellation/Termination.antt when the loops end.
-- - Task.antt: `TaskFuture`'s poll, finish and drop, `JoinHandle`, `TaskHandle` and `CancelHandle`,
--   composed of the calls of Joint.antt and Cancellation.antt. Task/Valid.antt has the
--   well-formedness of a task with all that it shares, Task/Outcomes.antt what the calls
--   do, Task/Driven.antt a task that an executor polls to its end.
--   Task/Owners.antt has the owners of the two shared objects and the counts of their `Arc`s, and
--   its children what the counts come to.
-- - Lifecycle.antt: the two protocols put together, with the task that steps in both.
--   Lifecycle/Coupling.antt says how they fit, Lifecycle/Ends.antt what a joiner and a canceller
--   may rely on while all threads run, Lifecycle/Progress.antt that they can always get there.
-- - Crowd.antt: many tasks with their boxes on one heap. Crowd/Local.antt says what a call does to
--   the heap, Crowd/Apart.antt what the tasks have of it, Crowd/Same.antt and Crowd/Alone.antt what
--   the other tasks are to a task, Crowd/Answers.antt what is left for joiners when an executor
--   drops its tasks, and Crowd/Given.antt which calls give a result away.
-- - JoinError.antt: the accessors and the texts of `JoinError`. JoinError/Reports.antt follows the
--   end of a task to the owner of the handle.
-- - Id.antt: `RawId`, `Id`, `IdScope`, `IdFuture`, `id` and `try_id`. Id/Running.antt is about the
--   running id, Id/Display.antt about the text of an id.
-- - Name.antt: `Name`, and how `Builder` names a task.
-- - Spawn.antt: the thread local `SPAWNER`, `enter`, `SpawnScope`, `spawn_with_name` and
--   `Builder::spawn`. Spawn/Scopes.antt has scripts of nested scopes, Spawn/Handing.antt who gets a
--   task, Spawn/Building.antt the name that a spawner sees.
-- - Compat.antt: `pick_global`, `find_global`, `find_local` and `find_spawn`. Compat/Choice.antt
--   has the rule of `pick_global` without its loop, Compat/Found.antt the order of preference and
--   the `OnceLock` under several threads, Compat/Linked.antt when the linker's order matters.
--   Compat/Runtimes.antt has the compats of spawns-compat/src, and Compat/Runtimes/Rule.antt which
--   runtime gets a task.
-- - Executor.antt: `block_on` and the scope of an executor's thread, of spawns-executor/src/lib.rs;
--   Executor/Scopes.antt what the thread has of its spawner. Executor/Blocking.antt: `Blocking`;
--   Executor/Threads.antt its threads.
-- - Scenarios.antt: the tests of task.rs and spawn.rs, two of spawns-executor and six of
--   spawns-compat, run on the definitions, in the files of Scenarios by what they test.
-- - Prelude.antt: names of the libraries, Boolean tests, lists, results, polls and panics.
-- A file Samples.antt holds the tests of its component.
--
-- How code is modelled.
-- - A function that may panic returns an `Outcome`, `panics` with what it panics for; where the
--   panic leaves changed state behind, the state stands beside the outcome.
-- - Wakers, panic payloads, spawners, spawn functions and addresses of boxes are numbers. Waking is
--   observed as a list of the wakers woken. `Box::from_raw` of an address that holds no live box is
--   an outcome of its own, `dangling`.
-- - A panic of a poll leaves the handle with its owner, who may catch it and poll or drop the handle
--   again: in Joint/Protocol.antt as in the calls.
-- - `Relaxed` atomics: a load of `stage` or of the pointer may see any value stored so far, so each
--   step takes the value seen as an argument that is among the stored ones: at least what the
--   memory model allows for one location. A compare-exchange that succeeds reads the last value,
--   one that fails any value but the expected one. What a box holds is read as it was last written.
-- - Each replacement of `result` under the mutex is one step of Joint/Protocol.antt. In
--   Joint/Mutex.antt it is three, the lock, the replacement and the drop of the guard. The mutex is never poisoned: what
--   runs while it is locked is at most the drop of the waker or of the result that is replaced, in
--   `JoinHandle`'s drop and poll and in `wake`, and it is taken not to panic, like the clones and
--   the wakes of wakers outside of the lock.
-- - The task calls `Joint::wake` at most once, and after it owns the end of its future: in the
--   steps of Joint/Protocol.antt by their form, in Task.antt by `Valid`.
-- - Id and `ID` are 64 bits wide, and `fetch_add` wraps: ids are taken `% 2 ^ 64`.
-- - The user's future, the spawners, the spawn functions and the detecting functions are
--   parameters: functions, or scripts of what they may do. Nothing is assumed of a future; of a
--   spawner, where a theorem says so, that it leaves `SPAWNER` as it found it.
-- - Nothing runs on fuel. A call of the joint has no loop, and how many steps it has
--   left is counted in Joint/Mutex/Turns.antt. The loops of compare-exchange are unbounded sequences of steps: the
--   numbers of steps that suffice without interference are in Cancellation/Atomic.antt, and what
--   may keep a loop going in Cancellation/Termination.antt.
-- - What an executor does while a thread blocks on it, the pool's answer to a new task, which
--   threads start, and whether a tokio runtime is current are parameters of Executor.antt and
--   Compat/Runtimes.antt. The worker threads of `Blocking` run `run_until` each on its own thread,
--   so what holds of the calling thread's scope holds of theirs.
-- - Lifecycle.antt frees the spare box of a dropped task before the drop wakes the joiner. The code
--   does so after; no other thread can reach that box.
--
-- Not modelled: the drop of the user's future inside `finish`, which is taken not to panic; the memory ordering between the contents of a box and the pointer to it; what the runtimes and executors of
-- third parties do with a future, and with it the tests that run one; the facade crate `spawns`,
-- which reexports; the example.
pub mod Cancellation
pub mod Compat
pub mod Crowd
pub mod Executor
pub mod Id
pub mod JoinError
pub mod Joint
pub mod Lifecycle
pub mod Name
pub mod Prelude
pub mod Scenarios
pub mod Spawn
pub mod Task
