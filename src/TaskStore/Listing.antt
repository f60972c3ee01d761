-- ===== src/TaskStore/Listing.antt =====
-- `List` of the in-memory store, a2asrv/taskstore/inmemory.go: filter, sort, page, trim.

use a2a_go.Base.{
  ℕ, zero, ◌-◌, ℤ, pos, negsuc, String, Bool, true, false, not, ◌&&◌, Option, none, some, List, [],
  ◌∷◌, length, get_elem?, take, drop, if◌then◌else◌, ltb, leb, str_eq, Result, ok, err, other,
  unauthenticated, invalid_request, ◌>>=◌,
}
use a2a_go.Core.{TaskState, unspecified, TaskState-discrete, Task}
use a2a_go.TaskStore.InMemory.{Caller, Entry, Tasks}
use a2a_go.TaskStore.Order.{text_lt}
use a2a_go.TaskStore.Search.{search}
use a2a_go.TaskStore.Token.{Codec, encode_page_token, decode_page_token}

-- `a2a.ListTasksRequest`
pub record ListTasksRequest : Type 0 where
  pub tenant : String
  pub context_id : String
  pub status : TaskState
  pub page_size : ℤ
  pub page_token : String
  pub history_length : Option ℤ
  pub status_timestamp_after : Option ℕ
  pub include_artifacts : Bool

pub record ListTasksResponse : Type 0 where
  pub tasks : List Task
  pub total_size : ℕ
  pub page_size : ℕ
  pub next_page_token : String

abbrev same_state : TaskState → TaskState → Bool
same_state a b = elim (TaskState-discrete a b) [ yes _ ↦ true | no _ ↦ false ]

-- the timestamp test, which passes where either side has none
abbrev too_old : Option ℕ → Option ℕ → Bool
too_old (some after) (some t) = ltb t after
too_old _ _ = false

-- the four `continue` tests of `filterTasks`
unfoldable pub keeps : String → ListTasksRequest → Entry → Bool
keeps user req e =
    if not (str_eq e.user user)
    then false
    else if not (str_eq req.context_id "") && not (str_eq e.task.context_id req.context_id)
    then false
    else if not (same_state req.status unspecified)
        && not (same_state e.task.status.state req.status)
    then false
    else if too_old req.status_timestamp_after e.task.status.timestamp
    then false
    else true

-- `filterTasks`
unfoldable pub filter_tasks : Tasks → String → ListTasksRequest → List Entry
filter_tasks [] user req = []
filter_tasks ((_, e) ∷ s) user req =
    let rest = filter_tasks s user req in if keeps user req e then e ∷ rest else rest

-- the order of the listing, on an entry's instant and ID: newest first, then the greater ID
abbrev precedes : ℕ → String → ℕ → String → Bool
precedes t id u jd = elim (Prim.Native.Nat.compare u t) [
  | Prim.Native.Nat.Ordering.lt ↦ true
  | Prim.Native.Nat.Ordering.gt ↦ false
  | Prim.Native.Nat.Ordering.eq ↦ text_lt jd id
]

abbrev pub before : Entry → Entry → Bool
before a b = precedes a.last_updated a.task.id b.last_updated b.task.id

-- `slices.SortFunc`: the sorted list. The order is total on distinct IDs, so that there is one.
unfoldable pub insert_sorted : Entry → List Entry → List Entry
insert_sorted a [] = a ∷ []
insert_sorted a (b ∷ l) = if before b a then b ∷ insert_sorted a l else a ∷ b ∷ l

unfoldable pub sort_tasks : List Entry → List Entry
unfolding insert_sorted
sort_tasks [] = []
sort_tasks (a ∷ l) = insert_sorted a (sort_tasks l)

-- the test that `applyPagination` hands to `sort.Search`: the entry comes behind the cursor
abbrev pub behind : ℕ × String → Option Entry → Bool
behind cursor none = true
behind (t, id) (some e) = precedes t id e.last_updated e.task.id

-- the entries from the place that the token names
unfoldable pub from_token : Codec → String → List Entry → Result (List Entry)
from_token c token l = if str_eq token "" then ok l else do
  cursor ← decode_page_token c token
  ok (drop (search (length l) (λ i. behind cursor (get_elem? l i))) l)

-- the page and the token of the next one; the index is in range, since the size is at least 1
unfoldable pub cut_page : Codec → ℕ → List Entry → Result (List Entry × String)
cut_page c size l = if leb (length l) size then ok (l, "") else elim (get_elem? l (size - 1)) [
  | none ↦ err (other "index out of range")
  | some e ↦ ok (take size l, encode_page_token c e.last_updated e.task.id)
]

-- `applyPagination`
unfoldable pub apply_pagination : Codec → ℕ → String → List Entry → Result (List Entry × String)
apply_pagination c size token l = do rest ← from_token c token l; cut_page c size rest

-- `historyLength <= 0`, or the last messages
abbrev trim_history {ℓ} : {A : Type ℓ} → ℤ → List A → List A
trim_history (pos zero) l = []
trim_history (negsuc _) l = []
trim_history (pos n) l = if ltb n (length l) then drop (length l - n) l else l

abbrev history_limit : Option ℤ → ℤ
history_limit none = pos 100
history_limit (some n) = n

unfoldable pub to_result : ListTasksRequest → Task → Task
to_result req t = record t {
  artifacts = if req.include_artifacts then t.artifacts else [];
  history = trim_history (history_limit req.history_length) t.history;
}

-- `toListTasksResult`
unfoldable pub to_list_tasks_result :
    (Task → Result Task) → ListTasksRequest → List Entry → Result (List Task)
to_list_tasks_result deep_copy req [] = ok []
to_list_tasks_result deep_copy req (e ∷ l) = do
  copy ← deep_copy e.task
  rest ← to_list_tasks_result deep_copy req l
  ok (to_result req copy ∷ rest)

-- the size of a page, 50 by default and 100 at most
unfoldable pub resolve_page_size : ℤ → Result ℕ
resolve_page_size (negsuc _) = err invalid_request
resolve_page_size (pos zero) = ok 50
resolve_page_size (pos n) = if ltb 100 n then err invalid_request else ok n

abbrev authenticate : Result String → Result String
authenticate (err _) = err unauthenticated
authenticate (ok user) = if str_eq user "" then err unauthenticated else ok user

-- `List`
unfoldable pub list :
    (Task → Result Task) → Codec → Caller → ListTasksRequest → Tasks → Result ListTasksResponse
list deep_copy codec c req s = do
  user ← authenticate c.user
  size ← resolve_page_size req.page_size
  let found = sort_tasks (filter_tasks s user req)
  (page, next) ← apply_pagination codec size req.page_token found
  tasks ← to_list_tasks_result deep_copy req page
  ok (record { tasks = tasks; total_size = length found; page_size = size; next_page_token = next })
