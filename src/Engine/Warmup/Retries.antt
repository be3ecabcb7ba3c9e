-- ===== src/Engine/Warmup/Retries.antt =====
-- What a background download leaves behind.
use mathlib.Core.Path.{subst}
use icloud_linux.Prelude.{
  ◌∷◌, sym, ◌∙◌, ==_refl, ==_refl, ◌∙◌, ℕ, ◌≡◌, refl, Bool, true, false, arith, none, some, get,
  ◌==◌, get-insert, get-remove, nat_eq, text_eq, if◌then◌else◌,
}
use icloud_linux.Path.{IcPath}
use icloud_linux.Policy.{SyncPolicy, allows}
use icloud_linux.Engine.Locks.{holds, holds-release}
use icloud_linux.Engine.Queue.{push}
use icloud_linux.Engine.Retry.{retry_delay}
use icloud_linux.Engine.Warmup.{
  Warmup, Fetched, fetched, auth_failed, failed, claim, enqueue, schedule_download_after,
  next_attempt, settle, unschedule, download_job,
}

abbrev pub is_failed : Fetched → Bool
is_failed failed = true
is_failed _ = false

schedule_free :
    (policy : SyncPolicy) (now : ℕ) (path : IcPath) (delay : ℕ) (s : Warmup)
    → allows policy path ≡ true
    → s.stopped ≡ false
    → holds path s.scheduled ≡ false
    → schedule_download_after policy now path delay s
      ≡ enqueue now path delay (record s { scheduled = path ∷ s.scheduled })
unfolding schedule_download_after claim
schedule_free policy now path delay s ok runs free = ground (arith, ok, runs, free)

-- A download that fails, other than for want of a session, is queued again with the delay of its
-- attempt, and the attempts of its path are counted; after any other result the path is neither
-- queued nor counted. Nothing changes for other paths. The path is allowed, and the engine runs.
pub download_job_retries :
    (policy : SyncPolicy) (now : ℕ) (path q : IcPath) (result : Fetched) (s : Warmup)
    → allows policy path ≡ true
    → s.stopped ≡ false
    → ((download_job policy now path result s).downloads ≡ (
        if is_failed result
        then push now s.downloads path (retry_delay (next_attempt path s))
        else s.downloads))
      × (get q (download_job policy now path result s).attempts ≡ (
          if path == q
          then if is_failed result then some (next_attempt path s) else none
          else get q s.attempts))
      × (holds q (download_job policy now path result s).scheduled
          ≡ (if path == q then is_failed result else holds q s.scheduled))
unfolding download_job settle unschedule schedule_download_after claim enqueue
download_job_retries policy now path q fetched s ok runs =
    ground (arith, get-remove path q s.attempts, holds-release path q s.scheduled)
download_job_retries policy now path q auth_failed s ok runs =
    ground (arith, get-remove path q s.attempts, holds-release path q s.scheduled)
download_job_retries policy now path q failed s ok runs =
    let t = unschedule path (settle path failed s).0 in
    let free : holds path t.scheduled ≡ false =
      holds-release path path s.scheduled ∙ rw (==_refl path) refl in
    subst
      (λ u.
        (u.downloads ≡ push now s.downloads path (retry_delay (next_attempt path s)))
        × (get q u.attempts ≡ (if path == q then some (next_attempt path s) else get q s.attempts))
        × (holds q u.scheduled ≡ (if path == q then true else holds q s.scheduled)))
      (sym (schedule_free policy now path (retry_delay (next_attempt path s)) t ok runs free))
      (
        refl,
        get-insert path q (next_attempt path s) s.attempts,
        unfold holds in ground (arith, holds-release path q s.scheduled),
      )
