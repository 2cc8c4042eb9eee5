-- ===== src/Compose/Block.antt =====
-- About sender/message.go: what a mail reader finds in a message that was built.
use tempmail.Prelude.{
  ℕ, ◌≡◌, ◌≢◌, refl, ap, ◌∙◌, Bool, true, false, ◌&&◌, Option, none, some, List, [], ◌∷◌, ◌++◌,
  append_assoc, append-nil, leb, ◌==◌, ==_iff, All, All-append, is_empty, Bool-cases, Option-cases,
  zero, inl, inr, arith, length, suc, drop,
}
use tempmail.Text.{Text, Unicode, codes, last_index, join}
use tempmail.Models.{ok}
use tempmail.Compose.{
  Sources, crlf, needs_encoding, q_encode, field, write_lines, sender_domain, common_fields,
  content, all_fields, has_content, build_message,
}

-- RFC 5322: the lines up to the first empty one, and what follows it. `line` is the line so far,
-- and the flag says that a carriage return stands behind it. A line feed alone ends a line too, as the
-- servers that pass a message on may take it.
read_block : Text → Bool → Text → Option (List Text × Text)
read_block line cr [] = none
read_block line true (c ∷ s) = elim (c == 10) [
  | false ↦ none
  | true ↦ elim (is_empty line) [
    | true ↦ some ([], s)
    | false ↦ elim (read_block [] false s) [
      | none ↦ none
      | some (ls, body) ↦ some (line ∷ ls, body)
    ]
  ]
]
read_block line false (c ∷ s) = elim (c == 13) [
  | true ↦ read_block line true s
  | false ↦ elim (c == 10) [
    | false ↦ read_block (line ++ c ∷ []) false s
    | true ↦ elim (is_empty line) [
      | true ↦ some ([], s)
      | false ↦ elim (read_block [] false s) [
        | none ↦ none
        | some (ls, body) ↦ some (line ∷ ls, body)
      ]
    ]
  ]
]

unfoldable pub parse_message : Text → Option (List Text × Text)
unfolding read_block
parse_message s = read_block [] false s

-- a character that neither begins nor makes a line end
abbrev pub IsInline : ℕ → Type 0
IsInline c = (c ≢ 13) × (c ≢ 10)

abbrev pub IsLine : Text → Type 0
IsLine s = All IsInline s

-- a line that is not the empty one
abbrev pub IsField : Text → Type 0
IsField s = IsLine s × (s ≢ [])

read_inline :
    (line : Text) (c : ℕ) (s : Text)
    → IsInline c
    → read_block line false (c ∷ s) ≡ read_block (line ++ c ∷ []) false s
unfolding read_block
read_inline line c s (h, k) = ground (arith, ==_iff c 13, ==_iff c 10)

read_line :
    (line l s : Text) → IsLine l → read_block line false (l ++ s) ≡ read_block (line ++ l) false s
read_line line [] s h = rw (append-nil line) refl
read_line line (c ∷ l) s h =
    read_inline line c (l ++ s) h.0
    ∙ read_line (line ++ c ∷ []) l s h.1
    ∙ ap (λ t. read_block t false s) (append_assoc line (c ∷ []) l)

read_end :
    (line s body : Text) (ls : List Text)
    → line ≢ []
    → read_block [] false s ≡ some (ls, body)
    → read_block line false (crlf ++ s) ≡ some (line ∷ ls, body)
unfolding read_block
read_end [] s body ls h e = absurd (h refl)
read_end (c ∷ line) s body ls h e = rw (e, read_block)

read_lines :
    (ls : List Text) (body : Text)
    → All IsField ls
    → read_block [] false (write_lines ls ++ (crlf ++ body)) ≡ some (ls, body)
read_lines [] body h = unfold read_block in refl
read_lines (l ∷ ls) body ((line, ne), h) =
    ap (read_block [] false) regroup
    ∙ read_line [] l _ line
    ∙ read_end l (write_lines ls ++ (crlf ++ body)) body ls ne (read_lines ls body h)
  where
    regroup :
        write_lines (l ∷ ls) ++ (crlf ++ body) ≡ l ++ (crlf ++ (write_lines ls ++ (crlf ++ body)))
    regroup = append_assoc l (crlf ++ write_lines ls) (crlf ++ body)

All-drop : (P : ℕ → Type 0) (n : ℕ) (s : Text) → All P s → All P (drop n s)
All-drop P zero s h = h
All-drop P (suc n) [] h = tt
All-drop P (suc n) (c ∷ s) h = All-drop P n s h.1

IsLine-append : (s t : Text) → IsLine s → IsLine t → IsLine (s ++ t)
IsLine-append = All-append IsInline

join-IsLine : (xs : List Text) (sep : Text) → All IsLine xs → IsLine sep → IsLine (join xs sep)
join-IsLine [] sep h k = tt
join-IsLine (x ∷ []) sep h k = h.0
join-IsLine (x ∷ y ∷ xs) sep h k =
    IsLine-append x _ h.0 (IsLine-append sep _ k (join-IsLine (y ∷ xs) sep h.1 k))

needs_encoding-IsLine : (s : Text) → needs_encoding s ≡ false → IsLine s
needs_encoding-IsLine [] h = tt
needs_encoding-IsLine (c ∷ s) h =
    ((λ e. ground arith, λ e. ground arith), needs_encoding-IsLine s (ground arith))

-- Package mime makes encoded words of one line, and the other sources are lines.
pub record IsClean (src : Sources) : Type 0 where
  pub uuid : IsLine src.uuid
  pub date : IsLine src.date
  pub boundary : IsLine src.boundary
  pub words : (s : Text) → IsLine (src.q_words s)

module _ ⦃u : Unicode⦄ (src : Sources) (clean : IsClean src) where
  q_encode-IsLine : (s : Text) → IsLine (q_encode src s)
  q_encode-IsLine s = elim (Bool-cases (needs_encoding s)) [
    | inl e ↦ rw e (clean.words s)
    | inr e ↦ rw e (needs_encoding-IsLine s e)
  ]

  sender_domain-IsLine : (from : Text) → IsLine from → IsLine (sender_domain from)
  unfolding sender_domain
  sender_domain-IsLine from h = elim (Option-cases (last_index from b'@')) [
    | inl e ↦ rw (e, sender_domain) (omega arith)
    | inr (i, e) ↦
        rw (e, sender_domain)
          (elim (Bool-cases (leb (length from) (suc i))) [
            | inl k ↦ rw k (omega arith)
            | inr k ↦ rw k (All-drop IsInline (suc i) from h)
          ])
  ]

  message_id-IsLine :
      (from : Text)
      → IsLine from
      → IsLine (
          field
            (codes "Message-ID")
            (codes "<" ++ (src.uuid ++ (codes "@" ++ (sender_domain from ++ codes ">")))))
  message_id-IsLine from h = IsLine-append (codes "Message-ID: <") _ (omega arith) (
      IsLine-append src.uuid _ clean.uuid (
        IsLine-append (codes "@") _ (omega arith) (
          IsLine-append (sender_domain from) (codes ">") (sender_domain-IsLine from h)
            (omega arith))))

  common-IsField :
      (from : Text) (to : List Text) (subject : Text)
      → IsLine from
      → All IsLine to
      → All IsField (common_fields src from to subject)
  unfolding common_fields
  common-IsField from to subject h k = (
    (IsLine-append (codes "From: ") from (omega arith) h, cc),
    (
      (
        IsLine-append (codes "To: ") _ (omega arith) (join-IsLine to (codes ", ") k (omega arith)),
        cc,
      ),
      (
        (IsLine-append (codes "Subject: ") _ (omega arith) (q_encode-IsLine subject), cc),
        (
          (IsLine-append (codes "Date: ") src.date (omega arith) clean.date, cc),
          ((message_id-IsLine from h, cc), ((omega arith, cc), tt)),
        ),
      ),
    ),
  )

  content-IsField : (text html : Text) → All IsField (content src text html).0
  unfolding content
  content-IsField text html = elim (Bool-cases (has_content src text && has_content src html)) [
    | inl e ↦ rw e (
      (
        IsLine-append (codes "Content-Type: multipart/alternative; boundary=") src.boundary
            (omega arith) clean.boundary,
        cc,
      ),
      tt,
    )
    | inr e ↦ rw e (elim (Bool-cases (has_content src html)) [
      | inl k ↦ rw k ((omega arith, cc), ((omega arith, cc), tt))
      | inr k ↦ rw k ((omega arith, cc), ((omega arith, cc), tt))
    ])
  ]

  -- If neither the sender nor a recipient holds a carriage return or a line feed, and the identifier, the date,
  -- the boundary and the encoded words are of one line, a mail reader finds in a message that is
  -- built the fields that were written, in order, and the body, whatever the subject and the two
  -- texts are: nothing in them ends the header or adds to it.
  pub parse_message-build_message :
      (from : Text) (to : List Text) (subject text html message : Text)
      → IsLine from
      → All IsLine to
      → build_message src from to subject text html ≡ ok message
      → parse_message message
        ≡ some (all_fields src from to subject text html, (content src text html).1)
  unfolding build_message parse_message all_fields
  parse_message-build_message from to subject text html message h k e =
      let fields = common_fields src from to subject ++ (content src text html).0 in
      let written : write_lines fields ++ (crlf ++ (content src text html).1) ≡ message =
        ground arith in
      rw (← written) (
        read_lines fields (content src text html).1 (
          All-append IsField (common_fields src from to subject) (content src text html).0
            (common-IsField from to subject h k) (content-IsField text html)))
