-- ===== src/Worker/Copies.antt =====
-- Jobs told apart by their ids, and counted.
use email_service_with_aws_s.Base.{
  ℕ, ◌+◌, String, ◌≡◌, List, [], ◌∷◌, ◌++◌, ◌==◌, arith, if◌then◌else◌,
}
use email_service_with_aws_s.Queue.{EmailJob}

-- How many of the jobs have this id.
abbrev pub copies : String → List EmailJob → ℕ
copies id [] = 0
copies id (j ∷ l) = (if j.id == id then 1 else 0) + copies id l

pub copies-append :
    (id : String) (l m : List EmailJob) → copies id (l ++ m) ≡ copies id l + copies id m
copies-append id [] m = omega arith
copies-append id (j ∷ l) m = omega (arith, copies-append id l m)
