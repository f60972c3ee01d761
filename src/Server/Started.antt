-- ===== src/Server/Started.antt =====
-- An execution from its start: a2asrv/agentexec.go sets it up in step with the store, so that what
-- Server/Runs says of the consumer's loop holds of it.
use a2a_go.Base.{
  String, Bool, Option, none, some, List, ◌≡◌, inl, inr, refl, ap, sym, ◌∙◌, subst, arith, Fault,
  Result-cases, ok,
}
use a2a_go.Core.{Task, Message, TaskInfo}
use a2a_go.TaskStore.Api.{StoredTask, Store}
use a2a_go.TaskUpdate.Manager.{Manager, new_manager}
use a2a_go.TaskUpdate.Laws.{IsStore, KeepsId}
use a2a_go.TaskExec.Promise.{task_result}
use a2a_go.Proto.Sending.{SendMessageRequest}
use a2a_go.Server.Processor.{Setup}
use a2a_go.Server.Loop.{Turn, process_events}
use a2a_go.Server.Results.{IsReady}
use a2a_go.Server.Runs.{Stored, process_events-returned}
use a2a_go.Server.Context.{
  ExecutionContext, Factory, load_execution_context, create_executor, save_config,
}
use a2a_go.Server.Loading.{load_execution_context-Loads}

-- the processor that `CreateExecutor` makes is for the context's task
abbrev pub processor_of : (store : Store) → Setup store → ExecutionContext → Setup store
processor_of store s x = record s { task_id = x.task_id }

module _ (store : Store) (s : Setup store) (laws : IsStore store) (keeps : KeepsId s.materializer)
    (faithful : (t u : Task) → s.deep_copy t ≡ ok u → u ≡ t) where
  open store use {World}

  -- what a new manager tracks
  new_manager_tracks :
      (info : TaskInfo) (o : Option StoredTask) (k : Manager)
      → new_manager s.deep_copy info o ≡ ok k
      → (k.info ≡ info)
        × ((t : Task)
            → k.tracked ≡ some t
            → (st : StoredTask) × (o ≡ some st) × (st.task ≡ t) × (st.version ≡ k.version))
  unfolding new_manager
  new_manager_tracks info none k h = (ground arith, λ t n. absurd (ground arith))
  new_manager_tracks info (some st) k h = elim (Result-cases (s.deep_copy st.task)) [
    | inl (e, p) ↦ absurd (ground arith)
    | inr (u, p) ↦
        let same = faithful st.task u p in
        (ground arith, λ t n. (st, refl, sym same ∙ ground arith, ground arith))
  ]

  create_executor_ok :
      (f : Factory) (req : SendMessageRequest) (m : Message) (w : World) (x : ExecutionContext)
      (k : Manager)
      → (create_executor store s.materializer f s.task_id req m s.deep_copy w).0 ≡ ok (x, k)
      → let l = load_execution_context store s.materializer f s.task_id req m w in
        (l.0 ≡ ok x)
        × (new_manager s.deep_copy
              (record { task_id = x.task_id; context_id = x.context_id })
              x.task
            ≡ ok k)
        × ((create_executor store s.materializer f s.task_id req m s.deep_copy w).1 ≡ l.1)
  unfolding create_executor
  create_executor_ok f req m w x k h =
      let l = load_execution_context store s.materializer f s.task_id req m w in
      elim (Result-cases l.0) [
        | inl (e, p) ↦ absurd (ground arith)
        | inr (y, p) ↦
            let saved = save_config store s.materializer f s.task_id req m req.config in
            elim (Result-cases saved) [
              | inl (e, q) ↦ absurd (ground arith)
              | inr (u, q) ↦
                  let info : TaskInfo = record { task_id = y.task_id; context_id = y.context_id } in
                  elim (Result-cases (new_manager s.deep_copy info y.task)) [
                    | inl (e, z) ↦ absurd (ground arith)
                    | inr (n, z) ↦
                        let same : y ≡ x = ground arith in
                        let is : n ≡ k = ground arith in
                        (
                          p ∙ ap (λ (v : ExecutionContext). ok v) same,
                          subst
                              (λ (v : ExecutionContext).
                                new_manager s.deep_copy
                                  (record { task_id = v.task_id; context_id = v.context_id }) v.task
                                ≡ ok k)
                              same (z ∙ ap (λ (v : Manager). ok v) is),
                          ground arith,
                        )
                  ]
            ]
      ]

  create_executor-IsReady :
      (f : Factory) (req : SendMessageRequest) (m : Message) (w : World) (x : ExecutionContext)
      (k : Manager)
      → laws.Good w
      → (create_executor store s.materializer f s.task_id req m s.deep_copy w).0 ≡ ok (x, k)
      → (x.task_id ≡ s.task_id)
        × IsReady store s laws k
            (create_executor store s.materializer f s.task_id req m s.deep_copy w).1
  create_executor-IsReady f req m w x k good h =
      let (made, managed, after) = create_executor_ok f req m w x k h in
      let l = load_execution_context store s.materializer f s.task_id req m w in
      let ready =
        (load_execution_context-Loads store s laws keeps faithful f req m w good).1 x made in
      let info : TaskInfo = record { task_id = x.task_id; context_id = x.context_id } in
      let (same, tracks) = new_manager_tracks info x.task k managed in
      let named = ap (λ (i : TaskInfo). i.task_id) same ∙ ready.named in
      (
        ready.named,
        rw after (record {
          good = ready.good;
          named = named;
          tracking = λ t n.
              let (st, from, is, at) = tracks t n in
              let (r, read, task_is, version_is) = ready.fresh st from in
              let (_, id) = laws.get-get s.task_id l.1 r ready.good read in
              ap (λ (y : Task). y.id) (sym is ∙ sym task_is) ∙ id ∙ sym named;
          synced = λ t n.
              let (st, from, is, at) = tracks t n in
              let (r, read, task_is, version_is) = ready.fresh st from in
              (r, read, task_is ∙ is, version_is ∙ at);
        }),
      )

  -- An execution that `CreateExecutor` set up for a message, over a store in order: when its consumer
  -- stops with a task as the result, that task is the one that the store holds. Whether the message starts
  -- the task or continues it, what the events were and which of them failed make no difference.
  pub create_executor-process_events :
      (f : Factory) (req : SendMessageRequest) (m : Message) (w : World) (x : ExecutionContext)
      (k : Manager) (queue : Bool) (turns : List Turn) (t : Task) (cause : Option Fault)
      → laws.Good w
      → let o = create_executor store s.materializer f s.task_id req m s.deep_copy w in
        (o.0 ≡ ok (x, k))
        → (process_events store (processor_of store s x) queue turns k o.1).returned
          ≡ some (some (task_result t), cause)
        → Stored store s (process_events store (processor_of store s x) queue turns k o.1).world t
  create_executor-process_events f req m w x k queue turns t cause good h stops =
      let o = create_executor store s.materializer f s.task_id req m s.deep_copy w in
      let (same, ready) = create_executor-IsReady f req m w x k good h in
      let ready' : IsReady store (processor_of store s x) laws k o.1 = record {
        good = ready.good;
        named = ready.named ∙ sym same;
        tracking = ready.tracking;
        synced = λ u n.
            let (st, read, is, at) = ready.synced u n in
            (st, subst (λ (id : String). (store.get id o.1).0 ≡ ok st) (sym same) read, is, at);
      } in
      let (st, read, is) =
        process_events-returned store (processor_of store s x) laws keeps faithful queue turns k o.1
          t cause ready' stops in
      let c = process_events store (processor_of store s x) queue turns k o.1 in
      (st, subst (λ (id : String). (store.get id c.world).0 ≡ ok st) same read, is)
