-- ===== src/Worker/Steps.antt =====
-- What processJob computes to on each of its paths.
use email_service_with_aws_s.Base.{String, ◌≡◌, refl, List, ◌∷◌, none, some, ok, err, Error, Bytes}
use email_service_with_aws_s.Queue.{EmailJob}
use email_service_with_aws_s.Worker.{
  Services, Conditions, World, valid_recipients, tracked_body, deliver, deliver_to, process_job,
}

module _ (services : Services) (net : Conditions) (job : EmailJob) (w : World services) where
  open services use {text, logs}

  pub no_delivery :
      (a : String) (to : List String)
      → tracked_body services job ≡ none
      → deliver_to services net job (a ∷ to) w ≡ none
  unfolding deliver_to
  no_delivery a to panics = rw (panics, deliver_to) refl

  pub one_delivery :
      (a : String) (to : List String) (html : Bytes)
      → tracked_body services job ≡ some html
      → deliver_to services net job (a ∷ to) w ≡ some (deliver services net job (a ∷ to) html w)
  unfolding deliver_to
  one_delivery a to html body = rw (body, deliver_to) refl

  pub checked :
      (l : List String)
      → valid_recipients services net.checks job.client_id job.to w.blacklist_rows ≡ ok l
      → process_job services net job w ≡ deliver_to services net job l w
  unfolding process_job
  checked l m = rw (m, process_job) refl

  pub unchecked :
      (e : Error)
      → valid_recipients services net.checks job.client_id job.to w.blacklist_rows ≡ err e
      → process_job services net job w ≡ some (err e, w)
  unfolding process_job
  unchecked e m = rw (m, process_job) refl
