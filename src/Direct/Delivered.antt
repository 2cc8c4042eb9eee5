-- ===== src/Direct/Delivered.antt =====
-- About the direct sender of sender/sender.go: a delivery that returns no error.
use tempmail.Prelude.{
  ℕ, suc, ◌≡◌, refl, Bool, false, Option, none, some, List, [], ◌∷◌, All, All-map, Any, Any-All,
  Option-cases, inl, inr, arith,
}
use tempmail.Text.{Text, Unicode, trim_space}
use tempmail.Models.{Result, ok, err}
use tempmail.Direct.{
  Answers, and_then, rcpts_error, smtp_client_send, attempt, try_hosts, Network, Group, mx_hosts,
  deliver_to_domain, recipient_domain, group_recipients, delivery_errors, send_groups, send_direct,
}
use tempmail.Direct.Groups.{group_recipients-Grouped}

pub and_then-none : (e f : Option Text) → and_then e f ≡ none → (e ≡ none) × (f ≡ none)
and_then-none none f h = (refl, h)
and_then-none (some x) f h = absurd (ground arith)

rcpts_error_lem :
    (a : Answers) (to : List Text) → rcpts_error a to ≡ none → All (λ r. a.rcpt r ≡ none) to
unfolding rcpts_error
rcpts_error_lem a [] h = tt
rcpts_error_lem a (r ∷ to) h =
    let (first, rest) = and_then-none (a.rcpt r) (rcpts_error a to) h in
    (first, rcpts_error_lem a to rest)

Any-pick :
    {A : Type 0} (P : A → Type 0) (xs : List A) → Any P xs → (x : A) × Any (λ y. y ≡ x) xs × P x
Any-pick P [] h = elim h [ ]
Any-pick P (x ∷ xs) (inl h) = (x, inl refl, h)
Any-pick P (x ∷ xs) (inr h) = let (y, found, p) = Any-pick P xs h in (y, inr found, p)

module _ (from msg : Text) where
  -- A server took the sender, each recipient, the message and its end.
  pub record Taken (a : Answers) (to : List Text) : Type 0 where
    pub sender : a.mail from ≡ none
    pub recipients : All (λ r. a.rcpt r ≡ none) to
    pub message : (a.start_data ≡ none) × (a.write msg ≡ none) × (a.end_data ≡ none)

  pub smtp_client_send-Taken :
      (a : Answers) (with_auth : Bool) (to : List Text)
      → smtp_client_send from msg a with_auth to ≡ none
      → Taken a to
  unfolding smtp_client_send
  smtp_client_send-Taken a with_auth to h =
      let (_, h₁) = and_then-none _ _ h in
      let (sender, h₂) = and_then-none (a.mail from) _ h₁ in
      let (each, h₃) = and_then-none (rcpts_error a to) _ h₂ in
      let (started, h₄) = and_then-none a.start_data _ h₃ in
      let (written, h₅) = and_then-none (a.write msg) _ h₄ in
      let (ended, _) = and_then-none a.end_data a.quit h₅ in
      record {
        sender = sender;
        recipients = rcpts_error_lem a to each;
        message = (started, written, ended);
      }

  -- One host of the list took the mail for the recipients, at one of the turns.
  abbrev pub TakenBy : (ℕ → Text → Answers) → List Text → List Text → Type 0
  TakenBy answers hosts to =
      (host : Text) × (n : ℕ) × Any (λ h. h ≡ host) hosts × Taken (answers n host) to

  attempt-Taken : (a : Answers) (to : List Text) → attempt from msg a to ≡ none → Taken a to
  unfolding attempt
  attempt-Taken a to h =
      let (_, h₁) = and_then-none _ _ h in
      let (_, h₂) = and_then-none a.greet _ h₁ in smtp_client_send-Taken a false to h₂

  try_hosts-TakenBy :
      (answers : ℕ → Text → Answers) (domain : Text) (to : List Text) (n : ℕ) (last : Option Text)
      (hosts : List Text)
      → try_hosts from msg answers domain to n last hosts ≡ none
      → TakenBy answers hosts to
  unfolding try_hosts
  try_hosts-TakenBy answers domain to n last [] h = absurd (ground arith)
  try_hosts-TakenBy answers domain to n last (host ∷ hosts) h =
      elim (Option-cases (attempt from msg (answers n host) to)) [
        | inl e ↦ (host, n, inl refl, attempt-Taken (answers n host) to e)
        | inr (x, e) ↦
            let (host', m, found, taken) =
              try_hosts-TakenBy answers domain to (suc n) (some x) hosts (rw (e, try_hosts) at h) in
            (host', m, inr found, taken)
      ]

  module _ ⦃u : Unicode⦄ (net : Network Group) where
    delivery_errors_lem :
        (groups : List Group)
        → delivery_errors from msg net groups ≡ []
        → All (λ g. deliver_to_domain from msg net g ≡ none) groups
    unfolding delivery_errors
    delivery_errors_lem [] h = tt
    delivery_errors_lem (g ∷ groups) h = elim (Option-cases (deliver_to_domain from msg net g)) [
      | inl e ↦ (e, delivery_errors_lem groups (rw (e, delivery_errors) at h))
      | inr (x, e) ↦ absurd (ground arith)
    ]

    -- A host of the recipient's domain took the mail for a group that has the recipient.
    abbrev pub Delivered : Text → Type 0
    Delivered addr =
        (g : Group) × (recipient_domain addr ≡ some g.domain)
        × Any (λ a. a ≡ addr) g.rcpts
        × TakenBy (net.answers g.domain) (mx_hosts net g.domain) g.rcpts

    deliver_to_domain-TakenBy :
        (g : Group)
        → deliver_to_domain from msg net g ≡ none
        → TakenBy (net.answers g.domain) (mx_hosts net g.domain) g.rcpts
    unfolding deliver_to_domain
    deliver_to_domain-TakenBy g h =
        try_hosts-TakenBy (net.answers g.domain) g.domain g.rcpts 0 none (mx_hosts net g.domain) h

    module _
        (keeps : (g : Group) (groups : List Group)
          → Any (λ h. h ≡ g) groups
          → Any (λ h. h ≡ g) (net.order groups)) where
      send_groups-Delivered :
          (to : List Text) (r : Result Text (List Group))
          → group_recipients [] to ≡ r
          → send_groups from msg net r ≡ none
          → All (λ raw. Delivered (trim_space raw)) to
      unfolding send_groups
      send_groups-Delivered to (err e) q h = absurd (ground arith)
      send_groups-Delivered to (ok groups) q h =
          let all_sent = delivery_errors_lem (net.order groups) (ground arith) in
          All-map to
            (λ raw (domain, e, held).
              let (g, found, (same_domain, has)) = Any-pick _ groups held in
              let (g', same_group, sent) =
                Any-All (net.order groups) (keeps g groups found) all_sent in
              (g, cc (e, same_domain), has, deliver_to_domain-TakenBy g (cc (same_group, sent))))
            (group_recipients-Grouped to groups q).complete

      -- If a direct delivery returns no error, then for each recipient, trimmed, a host of its domain took
      -- the sender, all the recipients of a group that has it, and the text of the message to its end, whatever the
      -- order in which the domains are visited, if it leaves none out.
      pub send_direct-Delivered :
          (to : List Text)
          → send_direct from msg net to ≡ none
          → All (λ raw. Delivered (trim_space raw)) to
      unfolding send_direct
      send_direct-Delivered to h = send_groups-Delivered to (group_recipients [] to) refl h
