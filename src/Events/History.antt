-- ===== src/Events/History.antt =====
-- What the updates of a2aevent/event.go do to a task's history.
use a2a_go.Base.{
  true, false, Option, none, some, List, [], ◌∷◌, ◌++◌, ◌≡◌, ◌≢◌, ◌⊎◌, inl, inr, refl, sym, ◌∙◌,
  ◌≤◌, length, arith, str_eq, eq_iff, eq_refl, Bool-cases, any, any-append,
}
use mathlib.Core.List.{append-nil}
use a2a_go.Core.{Message, Task, TaskStatusUpdateEvent}
use a2a_go.Events.Apply.{has_id, status_message_in_history, archive_status, apply_status_update}

-- No two messages have one ID, those without an ID set aside.
abbrev pub NoRepeat : List (Option Message) → Type 0
NoRepeat [] = Unit
NoRepeat (none ∷ l) = NoRepeat l
NoRepeat (some m ∷ l) = ((m.id ≡ "") ⊎ (any (has_id m.id) l ≡ false)) × NoRepeat l

has_id_sym : (a b : Message) → has_id a.id (some b) ≡ has_id b.id (some a)
has_id_sym a b = ground (arith, eq_iff a.id b.id, eq_iff b.id a.id)

NoRepeat-append :
    (l : List (Option Message)) (m : Message)
    → any (has_id m.id) l ≡ false
    → NoRepeat l
    → NoRepeat (l ++ some m ∷ [])
unfolding any
NoRepeat-append [] m h d = (inr refl, tt)
NoRepeat-append (none ∷ l) m h d = NoRepeat-append l m h d
NoRepeat-append (some a ∷ l) m h d = (
  elim d.0 [
    | inl e ↦ inl e
    | inr e ↦ inr (
        any-append (has_id a.id) l (some m ∷ [])
        ∙ ground (arith, eq_iff a.id m.id, eq_iff m.id a.id))
  ],
  NoRepeat-append l m (ground arith) d.1,
)

NoRepeat-append_unnamed :
    (l : List (Option Message)) (m : Message) → m.id ≡ "" → NoRepeat l → NoRepeat (l ++ some m ∷ [])
unfolding any
NoRepeat-append_unnamed [] m h d = (inl h, tt)
NoRepeat-append_unnamed (none ∷ l) m h d = NoRepeat-append_unnamed l m h d
NoRepeat-append_unnamed (some a ∷ l) m h d = (
  elim d.0 [
    | inl e ↦ inl e
    | inr e ↦ elim (Bool-cases (str_eq a.id "")) [
      | inl z ↦ inl ((eq_iff a.id "").0 z)
      | inr z ↦ inr (
          any-append (has_id a.id) l (some m ∷ [])
          ∙ ground (arith, eq_iff m.id a.id, eq_iff a.id ""))
    ]
  ],
  NoRepeat-append_unnamed l m h d.1,
)

archive_status-NoRepeat :
    (l : List (Option Message)) (s : Option Message) → NoRepeat l → NoRepeat (archive_status l s)
unfolding archive_status status_message_in_history
archive_status-NoRepeat l none d = d
archive_status-NoRepeat l (some m) d = elim (Bool-cases (str_eq m.id "")) [
  | inl e ↦ rw e (NoRepeat-append_unnamed l m ((eq_iff m.id "").0 e) d)
  | inr e ↦ elim (Bool-cases (any (has_id m.id) l)) [
    | inl f ↦ rw (e, f) d
    | inr f ↦ rw (e, f) (NoRepeat-append l m f d)
  ]
]

-- A status update keeps the IDs of the messages in the history distinct.
pub apply_status_update-NoRepeat :
    (t : Task) (e : TaskStatusUpdateEvent)
    → NoRepeat t.history
    → NoRepeat (apply_status_update t e).history
unfolding apply_status_update
apply_status_update-NoRepeat t e d = archive_status-NoRepeat t.history t.status.message d

archive_status-extends :
    (l : List (Option Message)) (s : Option Message)
    → (ext : List (Option Message)) × (archive_status l s ≡ l ++ ext) × (length ext ≤ 1)
unfolding archive_status
archive_status-extends l none = ([], sym (append-nil l), omega arith)
archive_status-extends l (some m) = elim (Bool-cases (status_message_in_history l m)) [
  | inl e ↦ ([], rw e (sym (append-nil l)), omega arith)
  | inr e ↦ (some m ∷ [], rw e, omega arith)
]

archive_status-keeps :
    (l : List (Option Message)) (m : Message)
    → m.id ≢ ""
    → any (has_id m.id) (archive_status l (some m)) ≡ true
unfolding archive_status status_message_in_history any
archive_status-keeps l m h =
    let named : str_eq m.id "" ≡ false = ground (arith, eq_iff m.id "") in
    elim (Bool-cases (any (has_id m.id) l)) [
      | inl f ↦ rw (named, f) f
      | inr f ↦
          rw (named, f) (any-append (has_id m.id) l (some m ∷ []) ∙ ground (arith, eq_refl m.id))
    ]

-- A status update keeps the whole history in its place and puts at most one message behind it.
-- The message of the status that it replaces is then in the history, if it has an ID.
pub apply_status_update-history :
    (t : Task) (e : TaskStatusUpdateEvent)
    → ((ext : List (Option Message)) × ((apply_status_update t e).history ≡ t.history ++ ext)
        × (length ext ≤ 1))
      × ((m : Message)
          → t.status.message ≡ some m
          → m.id ≢ ""
          → any (has_id m.id) (apply_status_update t e).history ≡ true)
unfolding apply_status_update
apply_status_update-history t e = (
  archive_status-extends t.history t.status.message,
  λ m h n. rw h (archive_status-keeps t.history m n),
)
