-- ===== src/TaskStore/Api.antt =====
-- The interface of a2asrv/taskstore/api.go: task versions, and a store as operations on a world.
--
-- A version is an `int64`, kept as its bit pattern, a number below 2^64.
use a2a_go.Base.{
  ℕ, ◌+◌, ◌%◌, ◌<◌, String, Bool, true, false, ◌≡◌, ◌↔◌, refl, arith, if◌then◌else◌, ◌==◌, ltb,
  Result,
}
use a2a_go.Core.{Task, Event}

abbrev pub version_missing : ℕ
version_missing = 0

-- `v + 1`, which wraps
abbrev pub next_version : ℕ → ℕ
next_version v = (v + 1) % 18446744073709551616

-- `a < b` of two `int64`
abbrev lt_int64 : ℕ → ℕ → Bool
lt_int64 a b =
    ltb ((a + 9223372036854775808) % 18446744073709551616)
      ((b + 9223372036854775808) % 18446744073709551616)

-- `v.After(another)`
unfoldable pub after : ℕ → ℕ → Bool
after v another =
    if another == version_missing
    then true
    else if v == version_missing
    then false
    else lt_int64 another v

pub record StoredTask : Type 0 where
  pub task : Task
  pub version : ℕ
  pub user : String

pub record UpdateRequest : Type 0 where
  pub task : Task
  pub event : Event
  pub prev_task : Task
  pub prev_version : ℕ

-- `Store`, less `List`. The world holds the store and whatever else acts on it: another process
-- may change the store between two calls.
pub record Store : Type 1 where
  pub World : Type 0
  pub create : Task → World → Result ℕ × World
  pub update : UpdateRequest → World → Result ℕ × World
  pub get : String → World → Result StoredTask × World

-- A version that a store hands out, before the counter of 63 bits is used up.
abbrev IsVersion : ℕ → Type 0
IsVersion v = (0 < v) × (v < 9223372036854775808)

-- Between versions that a store hands out, `After` is the order of the numbers; the missing version
-- is before every version, and after none but itself.
pub after_iff :
    (v w : ℕ)
    → IsVersion v
    → IsVersion w
    → ((after v w ≡ true) ↔ (w < v))
      × (after v version_missing ≡ true)
      × (after version_missing w ≡ false)
unfolding after
after_iff v w a b = ((λ h. ground arith, λ h. ground arith), refl, ground arith)
