-- ===== src/Proto/Events.antt =====
-- What a2apb/v1/pbconv/from_proto.go makes of the tasks and events that to_proto.go wrote.
use a2a_go.Base.{
  String, Bool, Option, none, some, ◌≡◌, inl, inr, subst, arith, eq_iff, Result-cases, Option-cases,
  ok,
}
use a2a_go.Core.{
  Message, TaskStatus, Artifact, Task, Event, message, task, status_update, artifact_update,
}
use a2a_go.Proto.Structs.{
  ProtoLib, unless_nil, PbMessage, PbTaskStatus, PbArtifact, PbTask, PbStatusUpdate,
  PbArtifactUpdate, PbPayload, pb_message, pb_task, pb_status_update, pb_artifact_update,
}
use a2a_go.Proto.ToProto.{
  to_proto_task_state, to_proto_map, to_proto_parts, to_proto_message, to_proto_messages,
  to_proto_task_status, to_proto_artifact, to_proto_artifacts, to_proto_task,
  to_proto_stream_response,
}
use a2a_go.Proto.FromProto.{
  from_proto_message, from_proto_messages, from_proto_task_status, from_proto_artifact,
  from_proto_artifacts, from_proto_task, from_proto_stream_response,
}
use a2a_go.Proto.RoundTrip.{
  IsProtoLib, AreMessages, IsArtifact, IsTask, IsEvent, each_of-each_of, unless_nil-unless_nil,
  from_proto_task_state-to_proto_task_state, from_proto_map-to_proto_map,
  from_proto_parts-to_proto_parts, from_proto_message-to_proto_message,
}

module _ (lib : ProtoLib) (is_float64 : String → Bool) (laws : IsProtoLib lib is_float64) where
  pointers :
      (m : Option Message) (p : Option (PbMessage lib))
      → AreMessages is_float64 m
      → unless_nil (to_proto_message lib) m ≡ ok p
      → unless_nil (from_proto_message lib) p ≡ ok m
  pointers m p good h =
      unless_nil-unless_nil (to_proto_message lib) (from_proto_message lib) m p
        (λ x y is g.
          from_proto_message-to_proto_message lib is_float64 laws x y
            (subst (AreMessages is_float64) is good) g)
        h

  from_proto_task_status-to_proto_task_status :
      (x : TaskStatus) (p : PbTaskStatus lib)
      → AreMessages is_float64 x.message
      → to_proto_task_status lib x ≡ ok p
      → from_proto_task_status lib (some p) ≡ ok x
  unfolding to_proto_task_status from_proto_task_status
  from_proto_task_status-to_proto_task_status x p good h =
      elim (Result-cases (unless_nil (to_proto_message lib) x.message)) [
        | inl (f, z) ↦ absurd (ground arith)
        | inr (m, z) ↦
            let back = pointers x.message m good z in
            let state = from_proto_task_state-to_proto_task_state x.state in
            let made : PbTaskStatus lib = record {
              state = to_proto_task_state x.state;
              message = m;
              timestamp = elim x.timestamp [ none ↦ none | some t ↦ some (lib.new_timestamp t) ];
            } in
            let is : made ≡ p = ground arith in
            subst (λ (y : PbTaskStatus lib). from_proto_task_status lib (some y) ≡ ok x) is
              (elim (Option-cases x.timestamp) [
                | inl none_set ↦ ground arith
                | inr (at, set) ↦ let time = laws.as_time-new_timestamp at in ground arith
              ])
      ]

  from_proto_artifact-to_proto_artifact :
      (a : Artifact) (p : PbArtifact lib)
      → IsArtifact is_float64 a
      → to_proto_artifact lib a ≡ ok p
      → from_proto_artifact lib p ≡ ok a
  unfolding to_proto_artifact from_proto_artifact
  from_proto_artifact-to_proto_artifact a p good h =
      elim (Result-cases (to_proto_map lib a.metadata)) [
        | inl (f, z) ↦ absurd (ground arith)
        | inr (s, z) ↦ elim (Result-cases (to_proto_parts lib a.parts)) [
          | inl (f, y) ↦ absurd (ground arith)
          | inr (parts, y) ↦
              let meta =
                from_proto_map-to_proto_map lib is_float64 laws a.metadata s good.metadata_exact
                  z in
              let back =
                from_proto_parts-to_proto_parts lib is_float64 laws a.parts parts good.parts_exact
                  y in
              let made : PbArtifact lib = record {
                artifact_id = a.id;
                name = a.name;
                description = a.description;
                parts = parts;
                metadata = s;
                extensions = a.extensions;
              } in
              let is : made ≡ p = ground arith in
              let text = eq_iff a.id "" in
              let id_set = good.id_set in
              subst (λ (x : PbArtifact lib). from_proto_artifact lib x ≡ ok a) is (ground arith)
        ]
      ]

  pub from_proto_task-to_proto_task :
      (t : Task) (p : PbTask lib)
      → IsTask is_float64 t
      → to_proto_task lib t ≡ ok p
      → from_proto_task lib p ≡ ok t
  unfolding to_proto_task from_proto_task to_proto_artifacts from_proto_artifacts to_proto_messages
      from_proto_messages
  from_proto_task-to_proto_task t p good h =
      elim (Result-cases (to_proto_task_status lib t.status)) [
        | inl (f, z) ↦ absurd (ground arith)
        | inr (status, z) ↦ elim (Result-cases (to_proto_artifacts lib t.artifacts)) [
          | inl (f, y) ↦ absurd (ground arith)
          | inr (artifacts, y) ↦ elim (Result-cases (to_proto_messages lib t.history)) [
            | inl (f, x) ↦ absurd (ground arith)
            | inr (history, x) ↦ elim (Result-cases (to_proto_map lib t.metadata)) [
              | inl (f, w) ↦ absurd (ground arith)
              | inr (s, w) ↦
                  let back_status =
                    from_proto_task_status-to_proto_task_status t.status status good.status_message
                      z in
                  let back_artifacts =
                    each_of-each_of (to_proto_artifact lib) (from_proto_artifact lib)
                      (IsArtifact is_float64) from_proto_artifact-to_proto_artifact t.artifacts
                      artifacts good.artifacts_good y in
                  let back_history =
                    each_of-each_of (unless_nil (to_proto_message lib))
                      (unless_nil (from_proto_message lib)) (AreMessages is_float64) pointers
                      t.history history good.past_messages x in
                  let meta =
                    from_proto_map-to_proto_map lib is_float64 laws t.metadata s good.metadata_exact
                      w in
                  let made : PbTask lib = record {
                    id = t.id;
                    context_id = t.context_id;
                    status = some status;
                    artifacts = artifacts;
                    history = history;
                    metadata = s;
                  } in
                  let is : made ≡ p = ground arith in
                  let text = eq_iff t.id "" in
                  let id_set = good.id_set in
                  subst (λ (v : PbTask lib). from_proto_task lib v ≡ ok t) is (ground arith)
            ]
          ]
        ]
      ]

  -- Every event that `ToProtoStreamResponse` writes is read back by `FromProtoStreamResponse` as the
  -- very same event, when its identifiers are set, its messages have the role of a user or an agent, and
  -- the values of its metadata and data parts have only float64 numbers and no bytes, structs or other
  -- types. Numbers are compared by their printed text.
  pub from_proto_stream_response-to_proto_stream_response :
      (e : Event) (p : Option (PbPayload lib))
      → IsEvent is_float64 e
      → to_proto_stream_response lib e ≡ ok p
      → from_proto_stream_response lib p ≡ ok e
  unfolding to_proto_stream_response from_proto_stream_response
  from_proto_stream_response-to_proto_stream_response (message m) p good h =
      elim (Result-cases (to_proto_message lib m)) [
        | inl (f, z) ↦ absurd (ground arith)
        | inr (q, z) ↦
            let back = from_proto_message-to_proto_message lib is_float64 laws m q good z in
            let is : some (pb_message q) ≡ p = ground arith in
            subst
              (λ (x : Option (PbPayload lib)). from_proto_stream_response lib x ≡ ok (message m)) is
              (ground arith)
      ]
  from_proto_stream_response-to_proto_stream_response (task t) p good h =
      elim (Result-cases (to_proto_task lib t)) [
        | inl (f, z) ↦ absurd (ground arith)
        | inr (q, z) ↦
            let back = from_proto_task-to_proto_task t q good z in
            let is : some (pb_task q) ≡ p = ground arith in
            subst (λ (x : Option (PbPayload lib)). from_proto_stream_response lib x ≡ ok (task t))
              is (ground arith)
      ]
  from_proto_stream_response-to_proto_stream_response (status_update e) p good h =
      elim (Result-cases (to_proto_task_status lib e.status)) [
        | inl (f, z) ↦ absurd (ground arith)
        | inr (q, z) ↦ elim (Result-cases (to_proto_map lib e.metadata)) [
          | inl (f, y) ↦ absurd (ground arith)
          | inr (s, y) ↦
              let back = from_proto_task_status-to_proto_task_status e.status q good.0 z in
              let meta = from_proto_map-to_proto_map lib is_float64 laws e.metadata s good.1 y in
              let made : PbStatusUpdate lib = record {
                task_id = e.task_id;
                context_id = e.context_id;
                status = some q;
                metadata = s;
              } in
              let is : some (pb_status_update made) ≡ p = ground arith in
              subst
                (λ (x : Option (PbPayload lib)).
                  from_proto_stream_response lib x ≡ ok (status_update e))
                is (ground arith)
        ]
      ]
  from_proto_stream_response-to_proto_stream_response (artifact_update e) p good h =
      elim (Result-cases (to_proto_artifact lib e.artifact)) [
        | inl (f, z) ↦ absurd (ground arith)
        | inr (q, z) ↦ elim (Result-cases (to_proto_map lib e.metadata)) [
          | inl (f, y) ↦ absurd (ground arith)
          | inr (s, y) ↦
              let back = from_proto_artifact-to_proto_artifact e.artifact q good.0 z in
              let meta = from_proto_map-to_proto_map lib is_float64 laws e.metadata s good.1 y in
              let made : PbArtifactUpdate lib = record {
                task_id = e.task_id;
                context_id = e.context_id;
                artifact = q;
                append = e.append;
                last_chunk = e.last_chunk;
                metadata = s;
              } in
              let is : some (pb_artifact_update made) ≡ p = ground arith in
              subst
                (λ (x : Option (PbPayload lib)).
                  from_proto_stream_response lib x ≡ ok (artifact_update e))
                is (ground arith)
        ]
      ]
