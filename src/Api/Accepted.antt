-- ===== src/Api/Accepted.antt =====
-- What POST /v1/email/send does when it accepts a message.
use mathlib.Core.Path.{ap₂}
use email_service_with_aws_s.Base.{
  arith, ℕ, ◌≤◌, String, ◌≡◌, refl, sym, ap, ◌∙◌, true, false, none, some, Option-cases, List, inl,
  inr, Bytes, Error, Result, Result-cases, ok, err, arrived,
}
use email_service_with_aws_s.RateLimit.Limiter.{check_all}
use email_service_with_aws_s.RateLimit.Laws.{is_allowed}
use email_service_with_aws_s.Queue.{EmailJob, email_queue_key, dead_queue_key}
use email_service_with_aws_s.Queue.Order.{Holds}
use email_service_with_aws_s.Repository.Models.{Client}
use email_service_with_aws_s.Auth.{validate_api_key}
use email_service_with_aws_s.Auth.Writes.Route.{by_api_key}
use email_service_with_aws_s.Auth.Fresh.{WasActive, Reaches}
use email_service_with_aws_s.Auth.Recent.{validate_api_key-WasActive}
use email_service_with_aws_s.Middleware.{parse_bearer_token, api_key_middleware}
use email_service_with_aws_s.Api.{answers, is_answer}
use email_service_with_aws_s.Api.Mail.{
  SendRequest, Services, Conditions, World, sender, accept, send_email, post_send,
}
use email_service_with_aws_s.Api.Queueing.{IsQueued, accept-IsQueued}

module _ (services : Services) (net : Conditions) (b : services.blacklist.State)
    (queue dead : List EmailJob) where
  open services use {
    text, client_json, json, cache, counters, lists, clients, logs, blacklist, binder, domain,
  }

  module _ (w : World services) (h : Holds json lists email_queue_key w.queue queue)
      (d : Holds json lists dead_queue_key w.queue dead) (pushed : net.pushed ≡ arrived)
      (body : Bytes) where
    -- What an accepted request has met.
    pub record IsSent (client : Client) (v : World services) : Type 0 where
      pub request : SendRequest
      pub bound : binder.bind body ≡ ok request
      pub allowed :
          is_allowed
            (check_all counters net.limited net.at net.uid client.id client.hourly_limit
              client.monthly_limit w.counts).0
          ≡ true
      pub queued : IsQueued services net b queue dead client (sender domain request) v

    unbound :
        (client : Client) (x : Error)
        → binder.bind body ≡ err x
        → is_answer (send_email services net b client body w).0 ≡ false
    unfolding send_email is_answer
    unbound client x m = rw (m, send_email) refl

    bound_to :
        (client : Client) (r : SendRequest)
        → binder.bind body ≡ ok r
        → send_email services net b client body w ≡ accept services net b client (sender domain r) w
    unfolding send_email
    bound_to client r m = rw (m, send_email) refl

    send_email-IsSent :
        (client : Client) (code : ℕ) (id : String) (v : World services)
        → send_email services net b client body w ≡ (answers code id, v)
        → IsSent client v
    unfolding is_answer
    send_email-IsSent client code id v e = elim (Result-cases (binder.bind body)) [
      | inr (x, m) ↦ cc (unbound client x m, ap (λ o. is_answer o.0) e)
      | inl (r, m) ↦
          let (room, queued) =
            accept-IsQueued services net b queue dead client (sender domain r) w h d pushed code id
              v (sym (bound_to client r m) ∙ e) in
          record { request = r; bound = m; allowed = room; queued = queued }
    ]

    module _ (header : String) (db : ℕ → clients.State) (patience now : ℕ) (s : cache.State)
        (reached : Reaches text clients client_json cache db patience now s)
        (later : now ≤ net.auth.at) where
      -- The token of the header is the API key of a client, and its message was accepted.
      pub record IsAccepted (v : World services) : Type 0 where
        pub key : String
        pub client : Client
        pub token : parse_bearer_token header ≡ some key
        pub recent :
            WasActive text clients client_json cache db patience by_api_key key client net.auth.at
        pub sent : IsSent client v

      abbrev answer_for : String → Result Client
      answer_for key =
          (validate_api_key text clients client_json cache net.auth key (db net.auth.at) s).0

      no_token :
          parse_bearer_token header ≡ none
          → is_answer (post_send services net header body (db net.auth.at) b s w).0 ≡ false
      unfolding post_send api_key_middleware is_answer
      no_token m = rw (m, post_send) refl

      no_client :
          (key : String) (x : Error)
          → parse_bearer_token header ≡ some key
          → answer_for key ≡ err x
          → is_answer (post_send services net header body (db net.auth.at) b s w).0 ≡ false
      unfolding post_send api_key_middleware is_answer
      no_client key x m m' = rw (m, m', post_send) (ground arith)

      handled :
          (key : String) (client : Client)
          → parse_bearer_token header ≡ some key
          → answer_for key ≡ ok client
          → ((post_send services net header body (db net.auth.at) b s w).0
              ≡ (send_email services net b client body w).0)
            × ((post_send services net header body (db net.auth.at) b s w).1
                ≡ (send_email services net b client body w).1)
      unfolding post_send api_key_middleware
      handled key client m m' = rw (m, m', post_send) (refl, refl)

      -- A request that is accepted carries the API key of a client that was active, less than the five
      -- minutes of the cache and one request before; it is well formed, the limiter allowed it, its
      -- first recipient was not found blacklisted, and its job waits last in the queue, if the reply
      -- of Push was not lost.
      pub post_send-IsAccepted :
          (code : ℕ) (id : String) (v : World services) (s' : cache.State)
          → post_send services net header body (db net.auth.at) b s w ≡ (answers code id, v, s')
          → IsAccepted v
      unfolding is_answer
      post_send-IsAccepted code id v s' e = elim (Option-cases (parse_bearer_token header)) [
        | inl m ↦ cc (no_token m, ap (λ o. is_answer o.0) e)
        | inr (key, m) ↦ elim (Result-cases (answer_for key)) [
          | inr (x, m') ↦ cc (no_client key x m m', ap (λ o. is_answer o.0) e)
          | inl (client, m') ↦
              let (same, state) = handled key client m m' in
              let whole : send_email services net b client body w ≡ (answers code id, v) =
                ap₂ (λ x y. (x, y)) (sym same ∙ ap (λ o. o.0) e) (sym state ∙ ap (λ o. o.1) e) in
              record {
                key = key;
                client = client;
                token = m;
                recent =
                    validate_api_key-WasActive text clients client_json cache db patience now s
                      reached net.auth later key client m';
                sent = send_email-IsSent client code id v whole;
              }
        ]
      ]
