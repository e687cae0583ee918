-- ===== src/Smtp/Envelope.antt =====
-- The envelope that a session collects.
use email_service_with_aws_s.Base.{
  ◌≤◌, String, ◌≡◌, refl, some, Option-cases, Bool-cases, List, [], ◌∷◌, inl, inr, ◌⊎◌, pos,
  pos_part, leb_ℤ, length, length-append, arith, Result-cases, Outcome,
}
use email_service_with_aws_s.Repository.Models.{Client}
use email_service_with_aws_s.Repository.Blacklist.{is_blacklisted}
use email_service_with_aws_s.Smtp.{
  Backend, Session, new_session, auth_plain, is_refused, mail_from, rcpt_to, reset,
}

module _ (backend : Backend) where
  open backend use {text, blacklist, validate, max_recipients}

  -- The commands that change a session; `b` is the blacklist that the command finds.
  pub data Command : Type 0 where
    auth : String → String → Command
    mail : Outcome → String → blacklist.State → Command
    rcpt : Outcome → String → blacklist.State → Command
    rset : Command

  unfoldable pub perform : Command → Session → Session
  perform (auth username password) s = (auth_plain backend username password s).1
  perform (mail net from b) s = (mail_from backend net from b s).1
  perform (rcpt net to b) s = (rcpt_to backend net to b s).1
  perform rset s = reset backend s

  unfoldable pub perform_all : List Command → Session → Session
  unfolding perform
  perform_all [] s = s
  perform_all (c ∷ l) s = perform_all l (perform c s)

  -- The recipients are within the cap, and without a client the envelope is empty.
  pub record IsEnvelope (s : Session) : Type 0 where
    pub bounded : length s.to ≤ pos_part max_recipients
    pub guarded : ((c : Client) × (s.client ≡ some c)) ⊎ ((s.from ≡ "") × (s.to ≡ []))

  auth_plain-IsEnvelope :
      (u p : String) (s : Session) → IsEnvelope s → IsEnvelope (auth_plain backend u p s).1
  unfolding auth_plain
  auth_plain-IsEnvelope u p s h = elim (Result-cases (validate u p)) [
    | inl (c, m) ↦ rw (m, auth_plain) (record { bounded = h.bounded; guarded = inl (c, refl) })
    | inr (e, m) ↦ rw (m, auth_plain) h
  ]

  mail_from-IsEnvelope :
      (net : Outcome) (from : String) (b : blacklist.State) (s : Session)
      → IsEnvelope s
      → IsEnvelope (mail_from backend net from b s).1
  unfolding mail_from
  mail_from-IsEnvelope net from b s h = elim (Option-cases s.client) [
    | inl m ↦ rw (m, mail_from) h
    | inr (c, m) ↦
        elim (Bool-cases (is_refused backend (is_blacklisted text blacklist net c.id from b))) [
          | inl refused ↦ rw (m, refused, mail_from) h
          | inr fine ↦
              rw (m, fine, mail_from) (record { bounded = h.bounded; guarded = inl (c, m) })
        ]
  ]

  rcpt_to-IsEnvelope :
      (net : Outcome) (to : String) (b : blacklist.State) (s : Session)
      → IsEnvelope s
      → IsEnvelope (rcpt_to backend net to b s).1
  unfolding rcpt_to
  rcpt_to-IsEnvelope net to b s h = elim (Option-cases s.client) [
    | inl m ↦ rw (m, rcpt_to) h
    | inr (c, m) ↦ elim (Bool-cases (leb_ℤ max_recipients (pos (length s.to)))) [
      | inl full ↦ rw (m, full, rcpt_to) h
      | inr room ↦
          elim (Bool-cases (is_refused backend (is_blacklisted text blacklist net c.id to b))) [
            | inl refused ↦ rw (m, room, refused, rcpt_to) h
            | inr fine ↦
                rw (m, room, fine, rcpt_to)
                  (record {
                    bounded = ground (arith, room, length-append s.to (to ∷ []));
                    guarded = inl (c, m);
                  })
          ]
    ]
  ]

  perform-IsEnvelope : (c : Command) (s : Session) → IsEnvelope s → IsEnvelope (perform c s)
  unfolding perform reset
  perform-IsEnvelope (auth u p) s h = auth_plain-IsEnvelope u p s h
  perform-IsEnvelope (mail net from b) s h = mail_from-IsEnvelope net from b s h
  perform-IsEnvelope (rcpt net to b) s h = rcpt_to-IsEnvelope net to b s h
  perform-IsEnvelope rset s h = record { bounded = omega arith; guarded = inr (refl, refl) }

  perform_all-IsEnvelope_of :
      (l : List Command) (s : Session) → IsEnvelope s → IsEnvelope (perform_all l s)
  unfolding perform_all
  perform_all-IsEnvelope_of [] s h = h
  perform_all-IsEnvelope_of (c ∷ l) s h =
      perform_all-IsEnvelope_of l (perform c s) (perform-IsEnvelope c s h)

  -- Whatever commands a session receives, it never has more recipients than the cap, and neither a
  -- sender nor recipients before a client has authenticated.
  pub perform_all-IsEnvelope : (l : List Command) → IsEnvelope (perform_all l new_session)
  unfolding new_session
  perform_all-IsEnvelope l =
      perform_all-IsEnvelope_of l new_session
        (record { bounded = omega arith; guarded = inr (refl, refl) })
