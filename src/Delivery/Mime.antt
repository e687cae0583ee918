-- ===== src/Delivery/Mime.antt =====
-- internal/delivery/ses.go: buildRawMessage. The encoders of mime/quotedprintable, mime/multipart and
-- the verb %q of fmt are parameters; `date` is the time in RFC 1123.
use email_service_with_aws_s.Base.{
  String, Bool, true, false, List, [], ◌∷◌, ◌++◌, Bytes, bytes, Result, ok, err, map_ok,
  if◌then◌else◌, not, ◌&&◌, ◌==◌,
}

pub record Part : Type 0 where
  pub content_type : Bytes
  pub content_transfer_encoding : Bytes
  pub content : Bytes

pub record Mime : Type 0 where
  pub quoted_printable : Bytes → Result Bytes
  pub multipart : List Part → Result Bytes
  pub boundary : Bytes
  pub quote : Bytes → Bytes

-- delivery.EmailJob
pub record Message : Type 0 where
  pub client_id : String
  pub log_id : String
  pub from : String
  pub to : List String
  pub reply_to : String
  pub subject : String
  pub html_body : Bytes
  pub text_body : Bytes
  pub raw_email : Bytes

abbrev pub is_empty : Bytes → Bool
is_empty [] = true
is_empty (c ∷ s) = false

abbrev crlf : Bytes
crlf = 13 ∷ 10 ∷ []

abbrev join : List String → Bytes
join [] = []
join (a ∷ []) = bytes a
join (a ∷ b ∷ l) = bytes a ++ (bytes ", " ++ join (b ∷ l))

infixl 5 ◌>>=◌
abbrev ◌>>=◌ : {A B : Type 0} → Result A → (A → Result B) → Result B
ok a >>= f = f a
err e >>= f = err e

module _ (mime : Mime) (date : Bytes) where
  -- writeQPPart; multipart.Writer writes the parts in order.
  unfoldable pub qp_part : String → Bytes → Result Part
  qp_part media_type body =
      map_ok
        (λ encoded. record {
          content_type = bytes media_type ++ bytes "; charset=UTF-8";
          content_transfer_encoding = bytes "quoted-printable";
          content = encoded;
        })
        (mime.quoted_printable body)

  unfoldable pub common_headers : Message → Bytes
  common_headers job =
      bytes "From: "
      ++ (bytes job.from
          ++ (crlf
              ++ (bytes "To: "
                  ++ (join job.to
                      ++ (crlf
                          ++ (bytes "Subject: "
                              ++ (bytes job.subject
                                  ++ (crlf
                                      ++ ((if job.reply_to == ""
                                            then []
                                            else bytes "Reply-To: " ++ (bytes job.reply_to ++ crlf))
                                          ++ (bytes "Date: "
                                              ++ (date
                                                  ++ (crlf
                                                      ++ (bytes "MIME-Version: 1.0"
                                                          ++ crlf)))))))))))))

  unfoldable pub single_part : String → Bytes → Result Bytes
  single_part media_type body =
      map_ok
        (λ encoded.
          bytes "Content-Type: "
          ++ (bytes media_type
              ++ (bytes "; charset=UTF-8"
                  ++ (crlf
                      ++ (bytes "Content-Transfer-Encoding: quoted-printable"
                          ++ (crlf ++ (crlf ++ encoded)))))))
        (mime.quoted_printable body)

  unfoldable pub both_parts : Bytes → Bytes → Result Bytes
  unfolding qp_part
  both_parts text html = do
    plain ← qp_part "text/plain" text
    rich ← qp_part "text/html" html
    body ← mime.multipart (plain ∷ rich ∷ [])
    ok (
        bytes "Content-Type: multipart/alternative; boundary="
        ++ (mime.quote mime.boundary ++ (crlf ++ (crlf ++ body))))

  unfoldable pub build_raw_message : Message → Result Bytes
  unfolding common_headers single_part both_parts
  build_raw_message job =
      if not (is_empty job.raw_email)
      then ok job.raw_email
      else map_ok (λ body. common_headers job ++ body)
          (if not (is_empty job.html_body) && not (is_empty job.text_body)
            then both_parts job.text_body job.html_body
            else if not (is_empty job.html_body)
            then single_part "text/html" job.html_body
            else single_part "text/plain" job.text_body)
