-- ===== src/Compose.antt =====
-- sender/message.go: the assembly of an outgoing message.
pub mod Block
use tempmail.Prelude.{
  ℕ, suc, Bool, true, false, not, ◌&&◌, ◌||◌, Option, none, some, List, [], ◌∷◌, ◌++◌, any, ltb,
  ◌==◌, leb, length, drop, is_empty, if◌then◌else◌,
}
use tempmail.Text.{Text, Unicode, codes, last_index, trim_space, join}
use tempmail.Models.{Result, ok, err}

-- What BuildMessage draws from outside: uuid.NewString, the date in the form RFC1123Z, the random
-- boundary of multipart.NewWriter, and the encoded words that package mime makes of a text.
pub record Sources : Type 0 where
  pub uuid : Text
  pub date : Text
  pub boundary : Text
  pub q_words : Text → Text

abbrev pub crlf : Text
crlf = 13 ∷ 10 ∷ []

-- mime.QEncoding.Encode leaves a text alone if all of it is printable ASCII or a tab.
abbrev pub needs_encoding : Text → Bool
needs_encoding s = any (λ c. (ltb c 32 || ltb 126 c) && not (c == 9)) s

abbrev pub q_encode : Sources → Text → Text
q_encode src s = if needs_encoding s then src.q_words s else s

-- a header field without its line end, and the lines that writeHeader writes
abbrev pub field : Text → Text → Text
field k v = k ++ (codes ": " ++ v)

abbrev pub write_lines : List Text → Text
write_lines [] = []
write_lines (l ∷ ls) = l ++ (crlf ++ write_lines ls)

-- the domain of the Message-ID
sender_domain : Text → Text
sender_domain from = elim (last_index from b'@') [
  | none ↦ codes "localhost"
  | some i ↦ (if leb (length from) (suc i) then codes "localhost" else drop (suc i) from)
]

abbrev pub text_plain : Text
text_plain = codes "text/plain; charset=utf-8"

abbrev pub text_html : Text
text_html = codes "text/html; charset=utf-8"

-- one part of multipart.Writer: the fields in the order of their names
abbrev pub part : Text → Text → Text
part content_type content =
    write_lines (
      field (codes "Content-Transfer-Encoding") (codes "8bit")
      ∷ field (codes "Content-Type") content_type
      ∷ [])
    ++ (crlf ++ content)

abbrev pub delimiter : Text → Text
delimiter boundary = codes "--" ++ boundary

abbrev pub multipart : Text → Text → Text → Text
multipart boundary text html =
    delimiter boundary
    ++ (crlf
        ++ (part text_plain text
            ++ (crlf
                ++ (delimiter boundary
                    ++ (crlf
                        ++ (part text_html html
                            ++ (crlf ++ (delimiter boundary ++ (codes "--" ++ crlf)))))))))

module _ ⦃u : Unicode⦄ (src : Sources) where
  common_fields : Text → List Text → Text → List Text
  unfolding sender_domain
  common_fields from to subject =
      field (codes "From") from
      ∷ field (codes "To") (join to (codes ", "))
      ∷ field (codes "Subject") (q_encode src subject)
      ∷ field (codes "Date") src.date
      ∷ field (codes "Message-ID")
          (codes "<" ++ (src.uuid ++ (codes "@" ++ (sender_domain from ++ codes ">"))))
      ∷ field (codes "MIME-Version") (codes "1.0")
      ∷ []

  has_content : Text → Bool
  has_content s = not (is_empty (trim_space s))

  abbrev pub single_fields : Text → List Text
  single_fields content_type =
      field (codes "Content-Type") content_type
      ∷ field (codes "Content-Transfer-Encoding") (codes "8bit")
      ∷ []

  -- the fields that describe the body, and the body
  pub content : Text → Text → List Text × Text
  unfolding has_content
  content text html =
      if has_content text && has_content html
      then (
        field (codes "Content-Type") (codes "multipart/alternative; boundary=" ++ src.boundary)
            ∷ [],
        multipart src.boundary text html,
      )
      else if has_content html
      then (single_fields text_html, html)
      else (single_fields text_plain, text)

  unfoldable pub all_fields : Text → List Text → Text → Text → Text → List Text
  unfolding common_fields content
  all_fields from to subject text html = common_fields from to subject ++ (content text html).0

  unfoldable pub build_message : Text → List Text → Text → Text → Text → Result Text Text
  unfolding all_fields content has_content
  build_message from to subject text html =
      if is_empty to
      then err (codes "to is required")
      else if not (has_content text) && not (has_content html)
      then err (codes "text or html body is required")
      else ok
          (write_lines (all_fields from to subject text html) ++ (crlf ++ (content text html).1))
