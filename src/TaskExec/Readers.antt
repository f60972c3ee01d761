-- ===== src/TaskExec/Readers.antt =====
-- What the distributed manager leaves behind, internal/taskexec/distributed_manager.go.
use a2a_go.Base.{
  ℕ, String, false, not, ◌&&◌, Option, none, some, List, [], ◌∷◌, ◌++◌, if◌then◌else◌, str_eq,
  eq_iff, ◌==◌, ◌≡◌, ◌≢◌, ◌⊎◌, inl, inr, refl, ap, sym, ◌∙◌, arith, Bool-cases, Option-cases, Fault,
  Result, Result-cases, ok, err, invalid_params, unsupported_operation, task_not_found,
}
use a2a_go.Core.{Message, terminal}
use a2a_go.TaskStore.Api.{StoredTask}
use a2a_go.WorkQueue.Lease.{Payload}
use a2a_go.Proto.Sending.{SendMessageRequest}
use a2a_go.TaskExec.Distributed.{
  Action, opens, closes, writes, ExecuteAnswers, Executed, execute_payload, after_write, execute,
}

without : ℕ → List ℕ → List ℕ
without r [] = []
without r (x ∷ l) = let rest = without r l in if x == r then rest else x ∷ rest

-- the readers that are open after these actions, from those that were open before
unfoldable pub open_after : List ℕ → List Action → List ℕ
unfolding without
open_after l [] = l
open_after l (opens r id ∷ rest) = open_after (r ∷ l) rest
open_after l (closes r ∷ rest) = open_after (without r l) rest
open_after l (writes p ∷ rest) = open_after l rest

-- the reader of the subscription that was returned
abbrev pub kept_reader : Result (ℕ × String) → List ℕ
kept_reader (ok (r, id)) = r ∷ []
kept_reader (err f) = []

-- Why work may be submitted for a message under this ID: it starts a task, with the new ID, or it is for
-- a stored task that has not ended and has the message's context, if that names one.
abbrev pub IsAdmitted : Message → ExecuteAnswers → String → Type 0
IsAdmitted m a requested =
    ((m.task_id ≡ "") × (requested ≡ a.new_task_id))
    ⊎ ((m.task_id ≢ "")
        × (requested ≡ m.task_id)
        × (st : StoredTask) × (a.stored ≡ ok (some st))
        × (terminal st.task.status.state ≡ false)
        × ((m.context_id ≡ "") ⊎ (m.context_id ≡ st.task.context_id)))

abbrev pub IsAsked : Option SendMessageRequest → Message → Type 0
IsAsked req m = (r : SendMessageRequest) × (req ≡ some r) × (r.message ≡ some m)

-- the actions before the work queue answers
abbrev pub opening : String → List Action
opening id = opens 0 id ∷ writes (execute_payload id) ∷ []

-- how far `Execute` comes
Reaches : Executed → Option SendMessageRequest → ExecuteAnswers → Type 0
Reaches x req a =
    ((f : Fault) × (x ≡ (err f, [])))
    ⊎ ((m : Message) × (requested : String) × IsAsked req m
        × IsAdmitted m a requested
        × (x ≡ after_write m a requested a.written (opening requested)))

execute_start :
    (r : SendMessageRequest) (m : Message) (a : ExecuteAnswers)
    → r.message ≡ some m
    → m.task_id ≡ ""
    → Reaches (execute (some r) a) (some r) a
unfolding execute Reaches
execute_start r m a at fresh =
    let text = eq_iff m.task_id "" in
    elim (Result-cases a.encoded) [
      | inl (f, p) ↦ inl (f, ground arith)
      | inr (u, p) ↦ elim (Result-cases a.reader) [
        | inl (f, q) ↦ inl (f, ground arith)
        | inr (v, q) ↦ inr (m, a.new_task_id, (r, refl, at), inl (fresh, refl), ground arith)
      ]
    ]

execute_continue :
    (r : SendMessageRequest) (m : Message) (a : ExecuteAnswers)
    → r.message ≡ some m
    → m.task_id ≢ ""
    → Reaches (execute (some r) a) (some r) a
unfolding execute Reaches
execute_continue r m a at known =
    let text = eq_iff m.task_id "" in
    elim (Result-cases a.stored) [
      | inl (f, p) ↦ inl (f, ground arith)
      | inr (o, k) ↦ elim (Option-cases o) [
        | inl n ↦ inl (task_not_found, ground arith)
        | inr (st, n) ↦
            let p : a.stored ≡ ok (some st) = ground arith in
            elim (Bool-cases
              (not (str_eq m.context_id "") && not (str_eq m.context_id st.task.context_id))) [
                | inl c ↦ inl (invalid_params, ground arith)
                | inr c ↦ elim (Bool-cases (terminal st.task.status.state)) [
                  | inl d ↦ inl (unsupported_operation, ground arith)
                  | inr d ↦ elim (Result-cases a.encoded) [
                    | inl (f, q) ↦ inl (f, ground arith)
                    | inr (u, q) ↦ elim (Result-cases a.reader) [
                      | inl (f, z) ↦ inl (f, ground arith)
                      | inr (v, z) ↦
                          let context : (m.context_id ≡ "") ⊎ (m.context_id ≡ st.task.context_id) =
                            elim (Bool-cases (str_eq m.context_id "")) [
                              | inl e ↦ inl ((eq_iff m.context_id "").0 e)
                              | inr e ↦
                                  inr ((eq_iff m.context_id st.task.context_id).0 (ground arith))
                            ] in
                          inr (
                            m,
                            m.task_id,
                            (r, refl, at),
                            inr (known, refl, st, p, d, context),
                            ground arith,
                          )
                    ]
                  ]
                ]
              ]
      ]
    ]

execute-Reaches :
    (req : Option SendMessageRequest) (a : ExecuteAnswers) → Reaches (execute req a) req a
unfolding Reaches
execute-Reaches none a = inl (invalid_params, unfold execute in refl)
execute-Reaches (some r) a = elim (Option-cases r.message) [
  | inl n ↦ inl (invalid_params, unfold execute in rw n refl)
  | inr (m, n) ↦ elim (Bool-cases (str_eq m.task_id "")) [
    | inl e ↦ execute_start r m a n ((eq_iff m.task_id "").0 e)
    | inr e ↦ execute_continue r m a n (λ h. let text = (eq_iff m.task_id "").1 h in ground arith)
  ]
]

after_write_readers :
    (m : Message) (a : ExecuteAnswers) (requested : String)
    → let x = after_write m a requested a.written (opening requested) in
      open_after [] x.1 ≡ kept_reader x.0
unfolding after_write open_after
after_write_readers m a requested = elim (Result-cases a.written) [
  | inl (f, p) ↦ rw p refl
  | inr (id, p) ↦ elim (Bool-cases (str_eq id requested)) [
    | inl e ↦ rw (p, e) refl
    | inr e ↦ elim (Bool-cases (str_eq m.task_id "")) [
      | inl n ↦ elim (Result-cases a.second_reader) [
        | inl (f, z) ↦ rw (p, e, n, z) refl
        | inr (u, z) ↦ rw (p, e, n, z) refl
      ]
      | inr n ↦ rw (p, e, n) refl
    ]
  ]
]

-- Whatever the store, the queues and the codec answer, `Execute` leaves exactly the reader open that
-- the subscription it returns reads from, and none when it fails.
pub execute_readers :
    (req : Option SendMessageRequest) (a : ExecuteAnswers)
    → open_after [] (execute req a).1 ≡ kept_reader (execute req a).0
unfolding Reaches
execute_readers req a = elim (execute-Reaches req a) [
  | inl (f, is) ↦ rw is (unfold open_after in refl)
  | inr (m, requested, asked, admitted, is) ↦ rw is (after_write_readers m a requested)
]

-- the payloads that were written
unfoldable pub written : List Action → List Payload
written [] = []
written (writes p ∷ rest) = p ∷ written rest
written (opens r id ∷ rest) = written rest
written (closes r ∷ rest) = written rest

after_write_once :
    (m : Message) (a : ExecuteAnswers) (requested : String)
    → let x = after_write m a requested a.written (opening requested) in
      (rest : List Action) × (x.1 ≡ opening requested ++ rest)
      × (written rest ≡ [])
      × ((r : ℕ) (id : String) → x.0 ≡ ok (r, id) → a.written ≡ ok id)
unfolding after_write written
after_write_once m a requested = elim (Result-cases a.written) [
  | inl (f, p) ↦ rw p (closes 0 ∷ [], refl, refl, λ r id h. absurd (ground arith))
  | inr (used, p) ↦ elim (Bool-cases (str_eq used requested)) [
    | inl e ↦
        let same = (eq_iff used requested).0 e in rw (p, e) ([], refl, refl, λ r id h. ground arith)
    | inr e ↦ elim (Bool-cases (str_eq m.task_id "")) [
      | inl n ↦ elim (Result-cases a.second_reader) [
        | inl (f, z) ↦ rw (p, e, n, z) (closes 0 ∷ [], refl, refl, λ r id h. absurd (ground arith))
        | inr (u, z) ↦
            rw (p, e, n, z) (closes 0 ∷ opens 1 used ∷ [], refl, refl, λ r id h. ground arith)
      ]
      | inr n ↦ rw (p, e, n) (closes 0 ∷ [], refl, refl, λ r id h. absurd (ground arith))
    ]
  ]
]

-- `Execute` either fails and has done nothing, or it has written one payload, behind the opening of a
-- reader for the payload's task, for an admitted message; and the task ID of the subscription that it
-- then returns is the one that the work queue answered.
pub execute_writes :
    (req : Option SendMessageRequest) (a : ExecuteAnswers)
    → ((f : Fault) × (execute req a ≡ (err f, [])))
      ⊎ ((m : Message) × (requested : String) × (rest : List Action) × IsAsked req m
          × IsAdmitted m a requested
          × ((execute req a).1 ≡ opening requested ++ rest)
          × (written rest ≡ [])
          × ((r : ℕ) (id : String) → (execute req a).0 ≡ ok (r, id) → a.written ≡ ok id))
unfolding Reaches
execute_writes req a = elim (execute-Reaches req a) [
  | inl failed ↦ inl failed
  | inr (m, requested, asked, admitted, is) ↦
      let (rest, done, none_more, named) = after_write_once m a requested in
      inr (
        m,
        requested,
        rest,
        asked,
        admitted,
        ap (λ (x : Executed). x.1) is ∙ done,
        none_more,
        λ r id h. named r id (ap (λ (x : Executed). x.0) (sym is) ∙ h),
      )
]
