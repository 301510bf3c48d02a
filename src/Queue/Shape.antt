-- ===== src/Queue/Shape.antt =====
-- The shape of the queue's map, and the candidate of a claim: the map is in the order of its keys,
-- and each job stands at its own identifier.
use labrys.Base.{
  ◌≡◌, refl, Bool, true, false, none, some, List, [], ◌∷◌, Text, All, retain, lookup, values,
  Entries, Entries-values, Entries-both, Sorted, Sorted-lookup, if◌then◌else◌, arith, Bool-cases,
  inl, inr, ap, sym,
}
use mathlib.Core.Path.{subst}
use labrys.Base.Clock.{Instant}
use labrys.Queue.Jobs.{Job, job_key}
use labrys.Queue.Operations.{JobQueue, new, earlier, is_due, least_from, least, candidate}

abbrev pub OwnKey : Text → Job → Type 0
OwnKey k job = k ≡ job_key job.id

pub record HasShape (q : JobQueue) : Type 0 where
  pub in_order : Sorted q.jobs
  pub own_keys : Entries OwnKey q.jobs

pub new-HasShape : HasShape new
unfolding new
new-HasShape = record { in_order = tt; own_keys = tt }

-- A job is found under its own identifier.
abbrev pub Found : JobQueue → Job → Type 0
Found q job = lookup (job_key job.id) q.jobs ≡ some job

pub values-Found : (q : JobQueue) → HasShape q → All (Found q) (values q.jobs)
values-Found q h =
    Entries-values (λ k job. (lookup k q.jobs ≡ some job) × OwnKey k job) (Found q) q.jobs
      (λ k job e. rw (← e.1) e.0)
      (Entries-both (λ k job. lookup k q.jobs ≡ some job) OwnKey q.jobs
        (Sorted-lookup q.jobs h.in_order) h.own_keys)

pub All-retain {ℓ κ} :
    {A : Type ℓ} (P : A → Type κ) (p : A → Bool) (xs : List A)
    → All P xs
    → All (λ x. P x × (p x ≡ true)) (retain p xs)
All-retain P p [] h = tt
All-retain P p (x ∷ xs) h = elim (Bool-cases (p x)) [
  | inl e ↦ rw e ((h.0, e), All-retain P p xs h.1)
  | inr e ↦ rw e (All-retain P p xs h.1)
]

All-least_from {κ} :
    (P : Job → Type κ) (best : Job) (jobs : List Job)
    → P best
    → All P jobs
    → P (least_from best jobs)
unfolding least_from
All-least_from P best [] b h = b
All-least_from P best (job ∷ jobs) b h = elim (Bool-cases (earlier job best)) [
  | inl e ↦ rw e (All-least_from P job jobs h.0 h.1)
  | inr e ↦ rw e (All-least_from P best jobs b h.1)
]

All-least {κ} :
    (P : Job → Type κ) (jobs : List Job) (job : Job) → All P jobs → least jobs ≡ some job → P job
unfolding least
All-least P [] job h e = absurd (cc)
All-least P (j ∷ jobs) job h e =
    let same : least_from j jobs ≡ job = cc in subst P same (All-least_from P j jobs h.0 h.1)

-- The candidate is a due job, and the lookup of its identifier gives it back.
pub candidate-Found :
    (now : Instant) (q : JobQueue) (job : Job)
    → HasShape q
    → candidate now q ≡ some job
    → Found q job × (is_due now job ≡ true)
unfolding candidate
candidate-Found now q job h e =
    All-least (λ j. Found q j × (is_due now j ≡ true)) (retain (is_due now) (values q.jobs)) job
      (All-retain (Found q) (is_due now) (values q.jobs) (values-Found q h)) e

earlier_irrefl : (job : Job) → earlier job job ≡ false
earlier_irrefl job = ground arith

earlier_through : (a b r : Job) → earlier a b ≡ true → earlier a r ≡ false → earlier b r ≡ false
earlier_through a b r h k = ground arith

not_earlier_trans : (a b r : Job) → earlier a b ≡ false → earlier b r ≡ false → earlier a r ≡ false
not_earlier_trans a b r h k = ground arith

-- Neither `best` nor a job of the list is earlier than `r`.
abbrev Least : Job → List Job → Job → Type 0
Least best jobs r = (earlier best r ≡ false) × All (λ j. earlier j r ≡ false) jobs

least_from-le : (best : Job) (jobs : List Job) → Least best jobs (least_from best jobs)
unfolding least_from
least_from-le best [] = (earlier_irrefl best, tt)
least_from-le best (job ∷ jobs) = elim (Bool-cases (earlier job best)) [
  | inl e ↦
      let (first, rest) = least_from-le job jobs in
      let next = ap (λ b. least_from (if b then job else best) jobs) (sym e) in
      subst (Least best (job ∷ jobs)) next
        (earlier_through job best (least_from job jobs) e first, (first, rest))
  | inr e ↦
      let (first, rest) = least_from-le best jobs in
      let next = ap (λ b. least_from (if b then job else best) jobs) (sym e) in
      subst (Least best (job ∷ jobs)) next
        (first, (not_earlier_trans job best (least_from best jobs) e first, rest))
]

least-le :
    (jobs : List Job) (job : Job) → least jobs ≡ some job → All (λ j. earlier j job ≡ false) jobs
unfolding least
least-le [] job h = absurd (cc)
least-le (j ∷ jobs) job h =
    let same : least_from j jobs ≡ job = cc in
    subst (λ r. (earlier j r ≡ false) × All (λ i. earlier i r ≡ false) jobs) same
      (least_from-le j jobs)

All-unretain {ℓ κ} :
    {A : Type ℓ} (P : A → Type κ) (p : A → Bool) (xs : List A)
    → All P (retain p xs)
    → All (λ x. p x ≡ true → P x) xs
All-unretain P p [] h = tt
All-unretain P p (x ∷ xs) h = elim (Bool-cases (p x)) [
  | inl e ↦ let k : P x × All P (retain p xs) = rw e at h in (λ _. k.0, All-unretain P p xs k.1)
  | inr e ↦ let k : All P (retain p xs) = rw e at h in (λ t. absurd (cc), All-unretain P p xs k)
]

-- No due job is earlier than the candidate.
pub candidate-least :
    (now : Instant) (q : JobQueue) (job : Job)
    → candidate now q ≡ some job
    → All (λ j. is_due now j ≡ true → earlier j job ≡ false) (values q.jobs)
unfolding candidate
candidate-least now q job e =
    All-unretain (λ j. earlier j job ≡ false) (is_due now) (values q.jobs)
      (least-le (retain (is_due now) (values q.jobs)) job e)

least-none : (jobs : List Job) → least jobs ≡ none → jobs ≡ []
unfolding least
least-none [] h = refl
least-none (job ∷ jobs) h = absurd (cc)

-- With no candidate, no job is due.
pub candidate-none :
    (now : Instant) (q : JobQueue)
    → candidate now q ≡ none
    → All (λ j. is_due now j ≡ true → ⊥) (values q.jobs)
unfolding candidate
candidate-none now q e =
    let nothing = least-none (retain (is_due now) (values q.jobs)) e in
    All-unretain (λ _. ⊥) (is_due now) (values q.jobs) (rw nothing tt)
