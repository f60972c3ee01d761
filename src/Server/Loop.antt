-- ===== src/Server/Loop.antt =====
-- `processEvents` and the join of an execution's goroutines, internal/taskexec/execution_handler.go.
use a2a_go.Base.{
  Bool, true, false, Option, none, some, List, [], ◌∷◌, if◌then◌else◌, is_some, Fault, Result, ok,
  err, other,
}
use a2a_go.Core.{Event}
use a2a_go.TaskStore.Api.{Store}
use a2a_go.TaskUpdate.Manager.{Manager}
use a2a_go.TaskExec.Promise.{SendMessageResult}
use a2a_go.TaskExec.Subscription.{QueueMessage}
use a2a_go.Server.Processor.{ProcessorResult, Setup, process_event, process_error}

-- What one round of the loop meets: the pipe's answer, whether the event is the task that the
-- manager was made from, and the broadcast's answer, if the loop comes to it.
pub record Turn : Type 0 where
  pub read : Result Event
  pub is_init : Bool
  pub broadcast : Result (Unit {0})

-- What the consumer has done: the messages that it has handed to the broadcast, what it returns, and
-- the manager and the world behind it. Without a result it waits for the pipe.
pub record Consumed (World : Type 0) : Type 0 where
  pub emitted : List QueueMessage
  pub returned : Option (Option SendMessageResult × Option Fault)
  pub manager : Manager
  pub world : World

-- the event that is shown to the subscribers
abbrev pub to_emit : Event → ProcessorResult → QueueMessage
to_emit e r = record {
  event = elim r.event_override [ none ↦ e | some o ↦ o ];
  task_version = r.task_version;
  protocol = "";
}

module _ (store : Store) (s : Setup store) where
  open store use {World}

  -- a return with what `handleErrorFn` says
  returning :
      List QueueMessage → Result (Option SendMessageResult) × Manager × World → Consumed World
  returning msgs (err e, m, w) = record {
    emitted = msgs;
    returned = some (none, some e);
    manager = m;
    world = w;
  }
  returning msgs (ok r, m, w) = record {
    emitted = msgs;
    returned = some (r, none);
    manager = m;
    world = w;
  }

  -- the loop with a message put before what it emits
  abbrev pub emitting : QueueMessage → Consumed World → Consumed World
  emitting msg c = record c { emitted = msg ∷ c.emitted }

  -- the end of a round: return, or go on
  finish_round :
      ProcessorResult → Manager → World → (Manager → World → Consumed World) → Consumed World
  finish_round r m w next =
      if is_some r.execution_result
      then record {
        emitted = [];
        returned = some (r.execution_result, r.execution_failure_cause);
        manager = m;
        world = w;
      }
      else next m w

  -- the broadcast, if the execution has a queue: an event whose broadcast fails was not delivered
  broadcast_round :
      Bool
      → Event
      → ProcessorResult
      → Result (Unit {0})
      → Manager
      → World
      → (Manager → World → Consumed World)
      → Consumed World
  unfolding returning finish_round
  broadcast_round false e r answer m w next = finish_round r m w next
  broadcast_round true e r (err f) m w next = returning [] (process_error store s m w)
  broadcast_round true e r (ok _) m w next = emitting (to_emit e r) (finish_round r m w next)

  processed_round :
      Bool
      → Event
      → Result (Unit {0})
      → Result ProcessorResult × Manager × World
      → (Manager → World → Consumed World)
      → Consumed World
  unfolding broadcast_round
  processed_round queue e answer (err f, m, w) next = record {
    emitted = [];
    returned = some (none, some f);
    manager = m;
    world = w;
  }
  processed_round queue e answer (ok r, m, w) next = broadcast_round queue e r answer m w next

  round :
      Bool
      → Turn
      → Result Event
      → Manager
      → World
      → (Manager → World → Consumed World)
      → Consumed World
  unfolding processed_round
  round queue t (err f) m w next = returning [] (process_error store s m w)
  round queue t (ok e) m w next =
      processed_round queue e t.broadcast (process_event store s e t.is_init m w) next

  -- `processEvents`; `queue` says whether there is a `handledEventQueue`
  unfoldable pub process_events : Bool → List Turn → Manager → World → Consumed World
  unfolding round
  process_events queue [] m w = record { emitted = []; returned = none; manager = m; world = w }
  process_events queue (t ∷ turns) m w =
      round queue t t.read m w (λ m' w'. process_events queue turns m' w')

-- How a goroutine of the group ends: the consumer with a result and an error, or the producer, the
-- heartbeat or the watcher of inactivity with an error.
pub data GroupEnd : Type 0 where
  consumer_stops : Option SendMessageResult → Option Fault → GroupEnd
  other_stops : Option Fault → GroupEnd

-- the consumer's result, in whatever place it ended
unfoldable pub processor_result : List GroupEnd → Option SendMessageResult
processor_result [] = none
processor_result (consumer_stops r f ∷ ends) = r
processor_result (other_stops f ∷ ends) = processor_result ends

-- the group's error is the first one; a consumer without an error stops the group by one of its own,
-- which stands here as no error
unfoldable pub group_error : List GroupEnd → Option Fault
group_error [] = none
group_error (consumer_stops r f ∷ ends) = f
group_error (other_stops none ∷ ends) = group_error ends
group_error (other_stops (some f) ∷ ends) = some f

-- the end of `runProducerConsumer`, after `group.Wait()`, for the ends in their order
unfoldable pub join_group : List GroupEnd → Result SendMessageResult
join_group ends = elim (processor_result ends) [
  | some r ↦ ok r
  | none ↦ elim (group_error ends) [
    | some f ↦ err f
    | none ↦ err (other "bug: consumer stopped, but result unset")
  ]
]
