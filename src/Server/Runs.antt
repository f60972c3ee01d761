-- ===== src/Server/Runs.antt =====
-- A whole run of `processEvents` of internal/taskexec/execution_handler.go, with the processor of
-- a2asrv/agentexec.go.
use a2a_go.Base.{
  Bool, true, false, Option, none, some, List, [], ◌∷◌, ◌≡◌, ◌⊎◌, inl, inr, sym, ◌∙◌, arith,
  Option-cases, Fault, Result-cases, ok, err,
}
use a2a_go.Core.{Task, Event}
use a2a_go.TaskStore.Api.{StoredTask, Store}
use a2a_go.TaskUpdate.Manager.{Manager, set_task_failed}
use a2a_go.TaskUpdate.Laws.{IsStore, KeepsId}
use a2a_go.TaskExec.Promise.{SendMessageResult, task_result}
use a2a_go.Server.Processor.{ProcessorResult, Setup, load_result, process_event, process_error}
use a2a_go.Server.Loop.{Turn, Consumed, process_events}
use a2a_go.Server.Results.{IsReady, load_result-Shows, failed-IsReady}
use a2a_go.Server.Applied.{process_event-IsProcessed}
use a2a_go.Server.Sound.{IsSound, process_event-IsSound}

-- the store holds this task under the processor's task ID
abbrev pub Stored : (store : Store) → Setup store → store.World → Task → Type 0
Stored store s w t = (st : StoredTask) × ((store.get s.task_id w).0 ≡ ok st) × (st.task ≡ t)

module _ (store : Store) (s : Setup store) (laws : IsStore store) (keeps : KeepsId s.materializer)
    (faithful : (t u : Task) → s.deep_copy t ≡ ok u → u ≡ t) where
  open store use {World}

  -- what `ProcessError` gives back is stored
  process_error-Stored :
      (m : Manager) (w : World) (t : Task)
      → IsSound store s laws keeps faithful m w
      → (process_error store s m w).0 ≡ ok (some (task_result t))
      → Stored store s (process_error store s m w).2 t
  unfolding process_error
  process_error-Stored m w t sound h =
      let o = set_task_failed store s.deep_copy s.materializer m s.now w in
      elim (Result-cases o.0) [
        | inl (f, p) ↦ absurd (ground arith)
        | inr (v, p) ↦
            let failed =
              failed-IsReady store s laws keeps faithful m w v sound.good sound.named sound.tracking
                p in
            elim (Result-cases (load_result store s o.1 o.2).0) [
              | inl (f, q) ↦ absurd (ground arith)
              | inr (l, q) ↦
                  let (st, read, is, at) =
                    load_result-Shows store s laws o.1 o.2 l failed q t (ground arith) in
                  rw (p, q) (st, read, is)
            ]
      ]

  -- a round that ends by `ProcessError`
  abbrev Broken : Consumed World → Manager → World → Type 0
  Broken c m w =
      (x : SendMessageResult) (f : Option Fault)
      → c.returned ≡ some (some x, f)
      → ((process_error store s m w).0 ≡ ok (some x)) × (c.world ≡ (process_error store s m w).2)

  -- a round that ends with the result of its event
  abbrev Finished : Consumed World → ProcessorResult → World → Type 0
  Finished c r w =
      (c.returned ≡ some (r.execution_result, r.execution_failure_cause)) × (c.world ≡ w)

  -- a round after which the loop goes on
  abbrev Continued : Consumed World → ProcessorResult → Consumed World → Type 0
  Continued c r rest =
      (r.execution_result ≡ none) × (c.returned ≡ rest.returned) × (c.world ≡ rest.world)

  read_failed :
      (queue : Bool) (turn : Turn) (turns : List Turn) (m : Manager) (w : World) (g : Fault)
      → turn.read ≡ err g
      → Broken (process_events store s queue (turn ∷ turns) m w) m w
  unfolding process_events
  read_failed queue turn turns m w g p x f h = elim (Result-cases (process_error store s m w).0) [
    | inl (k, q) ↦ absurd (ground arith)
    | inr (y, q) ↦ (ground arith, ground arith)
  ]

  processing_failed :
      (queue : Bool) (turn : Turn) (turns : List Turn) (m : Manager) (w : World) (e : Event)
      (g : Fault)
      → turn.read ≡ ok e
      → (process_event store s e turn.is_init m w).0 ≡ err g
      → (process_events store s queue (turn ∷ turns) m w).returned ≡ some (none, some g)
  unfolding process_events
  processing_failed queue turn turns m w e g p q = ground arith

  -- an event that the processor took, then the broadcast if there is a queue
  round_ending :
      (queue : Bool) (turn : Turn) (turns : List Turn) (m : Manager) (w : World) (e : Event)
      (r : ProcessorResult)
      → turn.read ≡ ok e
      → (process_event store s e turn.is_init m w).0 ≡ ok r
      → let c = process_events store s queue (turn ∷ turns) m w in
        let o = process_event store s e turn.is_init m w in
        Broken c o.1 o.2
        ⊎ (Finished c r o.2 ⊎ Continued c r (process_events store s queue turns o.1 o.2))
  unfolding process_events
  round_ending false turn turns m w e r p q = elim (Option-cases r.execution_result) [
    | inl n ↦ inr (inr (n, ground arith, ground arith))
    | inr (x, n) ↦ inr (inl (ground arith, ground arith))
  ]
  round_ending true turn turns m w e r p q =
      let o = process_event store s e turn.is_init m w in
      elim (Result-cases turn.broadcast) [
        | inl (g, b) ↦ inl (λ x f h. elim (Result-cases (process_error store s o.1 o.2).0) [
          | inl (k, z) ↦ absurd (ground arith)
          | inr (y, z) ↦ (ground arith, ground arith)
        ])
        | inr (u, b) ↦ elim (Option-cases r.execution_result) [
          | inl n ↦ inr (inr (n, ground arith, ground arith))
          | inr (x, n) ↦ inr (inl (ground arith, ground arith))
        ]
      ]

  IsReady-IsSound :
      (m : Manager) (w : World) → IsReady store s laws m w → IsSound store s laws keeps faithful m w
  IsReady-IsSound m w ready = record {
    good = ready.good;
    named = ready.named;
    tracking = ready.tracking;
  }

  -- When the consumer stops with a task as the result of the execution, whatever the agent's events
  -- were, wherever the store, the copying or the broadcasts failed, and whatever else was reported
  -- with it, then that very task is the one that the store holds.
  pub process_events-returned :
      (queue : Bool) (turns : List Turn) (m : Manager) (w : World) (t : Task) (f : Option Fault)
      → IsReady store s laws m w
      → (process_events store s queue turns m w).returned ≡ some (some (task_result t), f)
      → Stored store s (process_events store s queue turns m w).world t
  process_events-returned queue [] m w t f ready h = absurd (unfold process_events in ground arith)
  process_events-returned queue (turn ∷ turns) m w t f ready h =
      let sound = IsReady-IsSound m w ready in
      elim (Result-cases turn.read) [
        | inl (g, p) ↦
            let (wrote, world) = read_failed queue turn turns m w g p (task_result t) f h in
            rw world (process_error-Stored m w t sound wrote)
        | inr (e, p) ↦
            let o = process_event store s e turn.is_init m w in
            elim (Result-cases o.0) [
              | inl (g, q) ↦
                  let is = processing_failed queue turn turns m w e g p q in absurd (ground arith)
              | inr (r, q) ↦
                  let done =
                    process_event-IsProcessed store s laws keeps faithful e turn.is_init m w r ready
                      q in
                  let sound' =
                    process_event-IsSound store s laws keeps faithful e turn.is_init m w sound in
                  elim (round_ending queue turn turns m w e r p q) [
                    | inl broken ↦
                        let (wrote, world) = broken (task_result t) f h in
                        rw world (process_error-Stored o.1 o.2 t sound' wrote)
                    | inr (inl (is, world)) ↦
                        let (st, read, same, at) = done.shows t (ground arith) in
                        rw world (st, read, same)
                    | inr (inr (n, is, world)) ↦ rw world (
                        process_events-returned queue turns o.1 o.2 t f (done.ready n) (sym is ∙ h))
                  ]
            ]
      ]
