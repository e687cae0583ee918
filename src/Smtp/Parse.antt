-- ===== src/Smtp/Parse.antt =====
-- cmd/smtp/main.go: parseRawMessage and readPart, over net/mail, mime, mime/multipart and
-- mime/quotedprintable.
use email_service_with_aws_s.Base.{
  String, Bool, Option, none, some, List, [], ◌∷◌, ◌==◌, if◌then◌else◌, Bytes,
}

pub record Mail : Type 0 where
  pub subject : String
  pub content_type : String
  pub body : Bytes

pub record MailPart : Type 0 where
  pub content_type : String
  pub body : Bytes

pub record MailLibrary : Type 0 where
  -- mail.ReadMessage
  pub read_message : Bytes → Option Mail
  -- mime.ParseMediaType: the media type and the boundary
  pub parse_media_type : String → Option (String × String)
  -- the same where its error is ignored
  pub part_media : String → String
  -- strings.HasPrefix(mediaType, "multipart/")
  pub is_multipart : String → Bool
  -- the parts up to the first error
  pub parts : String → Bytes → List MailPart
  -- quoted-printable, none for an error, and what the decoder left unread
  pub decode : Bytes → Option Bytes × Bytes

module _ (library : MailLibrary) where
  open library use {read_message, parse_media_type, part_media, is_multipart, parts, decode}

  unfoldable pub read_part : Bytes → Bytes
  read_part body =
      let (text, rest) = decode body in
      elim text [ none ↦ rest | some [] ↦ rest | some (b ∷ more) ↦ b ∷ more ]

  -- The last part of each kind is kept.
  unfoldable pub read_parts : List MailPart → Bytes → Bytes → Bytes × Bytes
  unfolding read_part
  read_parts [] html text = (html, text)
  read_parts (p ∷ l) html text =
      let media = part_media p.content_type in
      let body = read_part p.body in
      read_parts l (if media == "text/html" then body else html)
        (if media == "text/plain" then body else text)

  unfoldable pub parse_raw_message : Bytes → String × Bytes × Bytes
  unfolding read_parts read_part
  parse_raw_message raw = elim (read_message raw) [
    | none ↦ ("", [], raw)
    | some m ↦ elim (parse_media_type m.content_type) [
      | none ↦ (m.subject, [], m.body)
      | some (media, boundary) ↦
          if is_multipart media
          then (
            m.subject,
            (read_parts (parts boundary m.body) [] []).0,
            (read_parts (parts boundary m.body) [] []).1,
          )
          else if media == "text/html"
          then (m.subject, read_part m.body, [])
          else (m.subject, [], read_part m.body)
    ]
  ]
