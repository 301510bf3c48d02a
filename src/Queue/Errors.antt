-- ===== src/Queue/Errors.antt =====
-- The calls that a queue refuses.
use labrys.Base.{◌≡◌, false, Text, Result, is_ok, arith}
use labrys.Base.Clock.{Instant}
use labrys.Queue.Operations.{JobQueue, running_job, complete, fail, pause, resume, requeue}

abbrev pub Refuses : {A : Type 0} → (Result A × JobQueue) → JobQueue → Type 0
Refuses (r, q') q = is_ok r ≡ false → q' ≡ q

-- A call that does not succeed leaves the queue as it was.
pub refused_unchanged :
    (id error : Text) (now : Instant) (q : JobQueue)
    → Refuses (complete id now q) q
      × Refuses (fail id error now q) q
      × Refuses (pause id now q) q
      × Refuses (resume id now q) q
      × Refuses (requeue id now q) q
unfolding complete fail pause resume requeue running_job
refused_unchanged id error now q =
    (λ h. ground arith, λ h. ground arith, λ h. ground arith, λ h. ground arith, λ h. ground arith)
