-- ===== src/Tests/Remote.antt =====
-- Runs and instances for the distributed manager, its work queue, and the joined execution.
use a2a_go.Base.{
  ℕ, ◌≤◌, ◌<◌, true, none, some, [], ◌∷◌, ◌++◌, length, ◌≡◌, ◌↔◌, ◌⊎◌, refl, arith, pos, ◌==◌,
  is_some, Fault, ok, err, queue_closed, other, lease_already_taken, List, String, any,
}
use a2a_go.Core.{canceled, is_canceled, Message}
use a2a_go.TaskExec.Promise.{convert_to_cancelation_result}
use a2a_go.TaskExec.Distributed.{Action, ExecuteAnswers, execute, CancelAnswers, cancel, follow}
use a2a_go.TaskExec.Subscription.{remote_events, remote_loop}
use a2a_go.TaskExec.Readers.{
  open_after, kept_reader, written, opening, IsAsked, IsAdmitted, execute_readers, execute_writes,
}
use a2a_go.TaskExec.Canceled.{cancel_only_canceled, cancel_returns, cancel_readers}
use a2a_go.Proto.Sending.{SendMessageRequest}
use a2a_go.WorkQueue.Lease.{Payload}
use a2a_go.WorkQueue.Lease.{is_execute, acquire, release}
use a2a_go.WorkQueue.Semaphore.{new_semaphore, try_acquire}
use a2a_go.WorkQueue.Semaphore
use a2a_go.Base.Maps.{lookup, insert}
use a2a_go.WorkQueue.InMemory.{
  QueueStep, acquires, asks, gives_up, returns, frees, new_queue, acquire_lease, ask, give_up,
  finish, free, write, step, steps, set_stage, remove_at,
}
use a2a_go.WorkQueue.Calls.{running}
use a2a_go.WorkQueue.Tokens.{tokens}
use a2a_go.WorkQueue.Admission.{steps_exclusive}
use a2a_go.WorkQueue.Writes.{IsQuiet, IsIdle, write_accepted}
use a2a_go.Tests.Data.{job, said}

abbrev request : SendMessageRequest
request = record { tenant = ""; config = none; message = some (said "m9" "go on"); metadata = none }

-- the work queue gives a stored task another ID
abbrev answers : ExecuteAnswers
answers = record {
  new_task_id = "t9";
  stored = ok (some (record { task = job; version = 1; user = "alice" }));
  encoded = ok tt;
  reader = ok tt;
  written = ok "t2";
  second_reader = ok tt;
}

execute_readers_example :
    open_after [] (execute (some request) answers).1
    ≡ kept_reader (execute (some request) answers).0
execute_readers_example = execute_readers (some request) answers

execute_writes_example :
    ((f : Fault) × (execute (some request) answers ≡ (err f, [])))
    ⊎ ((m : Message) × (requested : String) × (rest : List Action) × IsAsked (some request) m
        × IsAdmitted m answers requested
        × ((execute (some request) answers).1 ≡ opening requested ++ rest)
        × (written rest ≡ [])
        × ((r : ℕ) (id : String)
            → (execute (some request) answers).0 ≡ ok (r, id)
            → answers.written ≡ ok id))
execute_writes_example = execute_writes (some request) answers

-- the worker's queue is closed, and the store has the canceled task
abbrev closed : CancelAnswers
closed = record {
  stored = ok (record { task = job; version = 1; user = "alice" });
  reader = ok tt;
  encoded = ok tt;
  written = err lease_already_taken;
  snapshot = ok (record { task = job; version = 1; user = "alice" });
  reads = err queue_closed ∷ [];
  stored_after = ok (record {
    task = record job { status = record { message = none; state = canceled; timestamp = some 9 } };
    version = 2;
    user = "alice";
  });
}

-- the work queue cannot be reached
abbrev unreachable : CancelAnswers
unreachable = record closed { written = err (other "unreachable") }

canceled_task :
    (cancel "t1" closed).0
    ≡ some (
        ok
          (record job { status = record { message = none; state = canceled; timestamp = some 9 } }))
unfolding cancel follow remote_events remote_loop convert_to_cancelation_result
canceled_task = refl

cancel_only_canceled_example : is_canceled canceled ≡ true
cancel_only_canceled_example = cancel_only_canceled "t1" closed _ canceled_task

cancel_returns_example : is_some (cancel "t1" closed).0 ≡ true
unfolding any
cancel_returns_example = cancel_returns "t1" closed (λ st h. refl)

unreachable_fails : is_some (cancel "t1" unreachable).0 ≡ true
unfolding cancel
unreachable_fails = refl

cancel_readers_example : open_after [] (cancel "t1" unreachable).1 ≡ 0 ∷ []
unfolding cancel
cancel_readers_example = cancel_readers "t1" unreachable unreachable_fails

abbrev work : Payload
work = record { type = "execute"; task_id = "t1" }

abbrev stop : Payload
stop = record { type = "cancel"; task_id = "t1" }

abbrev other_work : Payload
other_work = record { type = "execute"; task_id = "t2" }

-- an execution, its cancelation, an execution that has no lease, one that the semaphore refuses while
-- the first returns, and the ends of both
abbrev calls : List (QueueStep ℕ)
calls =
    acquires work 1
    ∷ acquires stop 2
    ∷ asks 1
    ∷ asks 0
    ∷ acquires work 3
    ∷ acquires other_work 4
    ∷ asks 0
    ∷ returns 2
    ∷ gives_up 0
    ∷ frees
    ∷ []

==-reflexive : (t : ℕ) → (t == t) ≡ true
==-reflexive t = ground arith

steps_exclusive_example :
    (length (running (steps ◌==◌ calls (new_queue (pos 2)))) ≤ 2)
    × (length (tokens true "t1" (running (steps ◌==◌ calls (new_queue (pos 2))))) ≤ 1)
steps_exclusive_example = steps_exclusive ◌==◌ 2 calls true "t1" ==-reflexive (omega arith)

queue_runs : Unit {0}
unfolding new_queue steps step is_execute insert acquire_lease ask give_up finish free acquire
    release new_semaphore try_acquire Semaphore.release lookup set_stage remove_at
queue_runs = tt

calls-IsQuiet : IsQuiet (steps ◌==◌ calls (new_queue (pos 2)))
unfolding queue_runs
calls-IsQuiet = ((refl, tt), refl)

write_accepted_example :
    let q = steps ◌==◌ calls (new_queue (pos 2)) in
    ((write ◌==◌ work 4 q).0 ≡ ok "t1") ↔ (IsIdle work (running q) × (length (running q) < 2))
write_accepted_example = write_accepted ◌==◌ 2 calls work 4 ==-reflexive (omega arith) calls-IsQuiet
