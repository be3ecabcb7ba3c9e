-- ===== src/Engine/Warmup.antt =====
-- The background downloads: `schedule_download_after` and `download_job` of
-- crates/icloud-core/src/engine/download.rs. What `ensure_local_file` came to is a parameter.
pub mod Retries
pub mod Once
use icloud_linux.Prelude.{
  ℕ, ◌+◌, ◌%◌, ◌^◌, Bool, true, false, not, ◌||◌, List, [], ◌∷◌, Option, none, some, Assoc, get,
  insert, remove, text_eq, if◌then◌else◌,
}
use icloud_linux.Path.{IcPath}
use icloud_linux.Policy.{SyncPolicy, allows}
use icloud_linux.Engine.Locks.{holds, release}
use icloud_linux.Engine.Queue.{DelayQueue, push, close}
use icloud_linux.Engine.Retry.{retry_delay}

-- The fields of `Inner` that the two use.
pub record Warmup : Type 0 where
  pub scheduled : List IcPath
  pub downloads : DelayQueue IcPath
  pub attempts : Assoc IcPath ℕ
  pub completed : ℕ
  pub auth_lost : Bool
  pub stopped : Bool

-- The result of `ensure_local_file`: success, an error that `is_auth`, another error.
pub data Fetched : Type 0 where
  fetched : Fetched
  auth_failed : Fetched
  failed : Fetched

-- The guards of `schedule_download_after`: `none` where it returns.
unfoldable pub claim : SyncPolicy → IcPath → Warmup → Option Warmup
claim policy path s =
    if not (allows policy path) || s.stopped
    then none
    else if holds path s.scheduled
    then none
    else some (record s { scheduled = path ∷ s.scheduled })

unfoldable pub enqueue : ℕ → IcPath → ℕ → Warmup → Warmup
enqueue now path delay s = record s { downloads = push now s.downloads path delay }

unfoldable pub schedule_download_after : SyncPolicy → ℕ → IcPath → ℕ → Warmup → Warmup
schedule_download_after policy now path delay s = elim (claim policy path s) [
  | none ↦ s
  | some claimed ↦ enqueue now path delay claimed
]

-- `schedule_download`: without delay.
unfoldable pub schedule_download : SyncPolicy → ℕ → IcPath → Warmup → Warmup
schedule_download policy now path s = schedule_download_after policy now path 0 s

-- `note_failure` of an error that `is_auth`; of another one it does nothing.
abbrev pub note_failure : Warmup → Warmup
note_failure s = record s { auth_lost = true }

-- What `shutdown` does to these fields.
abbrev pub shut_down : Warmup → Warmup
shut_down s = record s { stopped = true; downloads = close s.downloads }

-- `*attempts.entry(path).or_insert(0) += 1`
abbrev pub next_attempt : IcPath → Warmup → ℕ
next_attempt path s = (elim (get path s.attempts) [ none ↦ 0 | some n ↦ n ] + 1) % 2 ^ 32

-- The match on the result, with the delay of the retry.
unfoldable pub settle : IcPath → Fetched → Warmup → Warmup × Option ℕ
settle path fetched s =
    (record s { attempts = remove path s.attempts; completed = (s.completed + 1) % 2 ^ 64 }, none)
settle path auth_failed s = (record (note_failure s) { attempts = remove path s.attempts }, none)
settle path failed s =
    let n = next_attempt path s in
    (record s { attempts = insert path n s.attempts }, some (retry_delay n))

unfoldable pub unschedule : IcPath → Warmup → Warmup
unschedule path s = record s { scheduled = release path s.scheduled }

unfoldable pub download_job : SyncPolicy → ℕ → IcPath → Fetched → Warmup → Warmup
download_job policy now path result s =
    let (settled, retry) = settle path result s in
    let done = unschedule path settled in
    elim retry [ none ↦ done | some delay ↦ schedule_download_after policy now path delay done ]
