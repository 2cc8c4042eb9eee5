-- ===== src/Direct.antt =====
-- sender/sender.go: direct delivery to the mail hosts of the recipients' domains.
pub mod Groups
pub mod Delivered
use tempmail.Prelude.{
  ℕ, suc, Bool, true, false, not, ◌&&◌, Option, none, some, List, [], ◌∷◌, ◌++◌, leb, length, drop,
  is_empty, if◌then◌else◌,
}
use tempmail.Text.{Text, Unicode, codes, same, last_index, join, to_lower, trim_space}
use tempmail.Models.{Result, ok, err}

-- What one connection answers: MAIL to the sender, RCPT to each recipient, and the writing of the message to its
-- text; `none` is a nil error.
pub record Answers : Type 0 where
  pub dial4 : Option Text
  pub dial6 : Option Text
  pub greet : Option Text
  pub offers_auth : Bool
  pub auth : Option Text
  pub mail : Text → Option Text
  pub rcpt : Text → Option Text
  pub start_data : Option Text
  pub write : Text → Option Text
  pub end_data : Option Text
  pub quit : Option Text

-- the first error of two calls, the second of which is made if the first has none
abbrev pub and_then : Option Text → Option Text → Option Text
and_then none e = e
and_then (some x) e = some x

rcpts_error : Answers → List Text → Option Text
rcpts_error a [] = none
rcpts_error a (r ∷ to) = and_then (a.rcpt r) (rcpts_error a to)

-- smtpClientSend, with credentials or without
unfoldable pub smtp_client_send : Text → Text → Answers → Bool → List Text → Option Text
unfolding rcpts_error
smtp_client_send from msg a with_auth to =
    and_then (if with_auth && a.offers_auth then a.auth else none) (
      and_then (a.mail from) (
        and_then (rcpts_error a to)
          (and_then a.start_data (and_then (a.write msg) (and_then a.end_data a.quit)))))

-- one turn of the loop over the hosts; STARTTLS is tried and its error ignored
attempt : Text → Text → Answers → List Text → Option Text
attempt from msg a to =
    and_then (elim a.dial4 [ none ↦ none | some e ↦ a.dial6 ])
      (and_then a.greet (smtp_client_send from msg a false to))

-- the error at the end of deliverToDomain
no_hosts : Text → Option Text → Text
no_hosts domain none = codes "no MX hosts for " ++ domain
no_hosts domain (some last) = last

-- the loop over the hosts; `n` counts the turns
try_hosts :
    Text
    → Text
    → (ℕ → Text → Answers)
    → Text
    → List Text
    → ℕ
    → Option Text
    → List Text
    → Option Text
unfolding attempt no_hosts
try_hosts from msg answers domain to n last [] = some (no_hosts domain last)
try_hosts from msg answers domain to n last (host ∷ hosts) =
    elim (attempt from msg (answers n host) to) [
      | none ↦ none
      | some e ↦ try_hosts from msg answers domain to (suc n) (some e) hosts
    ]

-- What the program asks of the network: the MX records of a domain in the order of their preference,
-- each as its host, and the answers of a domain's turns. The order of a Go map is any.
pub record Network (Group : Type 0) : Type 0 where
  pub look_up_mx : Text → Result Text (List Text)
  pub answers : Text → ℕ → Text → Answers
  pub order : List Group → List Group

pub record Group : Type 0 where
  pub domain : Text
  pub rcpts : List Text

-- strings.TrimSuffix(host, ".")
trim_dot : Text → Text
trim_dot [] = []
trim_dot (c ∷ s) = let rest = trim_dot s in if same (c ∷ s) (codes ".") then [] else c ∷ rest

named_hosts : List Text → List Text
unfolding trim_dot
named_hosts [] = []
named_hosts (mx ∷ mxs) =
    let rest = named_hosts mxs in let h = trim_dot mx in if is_empty h then rest else h ∷ rest

-- mxHosts
unfoldable pub mx_hosts : Network Group → Text → List Text
unfolding named_hosts
mx_hosts net domain = elim (net.look_up_mx domain) [
  | err e ↦ domain ∷ []
  | ok mxs ↦ (let hosts = named_hosts mxs in if is_empty hosts then domain ∷ [] else hosts)
]

-- deliverToDomain; mxHosts returns no error
unfoldable pub deliver_to_domain : Text → Text → Network Group → Group → Option Text
unfolding try_hosts
deliver_to_domain from msg net g =
    try_hosts from msg (net.answers g.domain) g.domain g.rcpts 0 none (mx_hosts net g.domain)

module _ ⦃u : Unicode⦄ where
  domain_behind : Text → Option ℕ → Option Text
  domain_behind addr none = none
  domain_behind addr (some i) =
      if leb (length addr) (suc i) then none else some (to_lower (drop (suc i) addr))

  unfoldable pub recipient_domain : Text → Option Text
  unfolding domain_behind
  recipient_domain addr = domain_behind addr (last_index addr b'@')

  -- byDomain[dom] = append(byDomain[dom], addr)
  unfoldable pub add_to : Text → Text → List Group → List Group
  add_to dom addr [] = record { domain = dom; rcpts = addr ∷ [] } ∷ []
  add_to dom addr (g ∷ groups) =
      let rest = add_to dom addr groups in
      if same g.domain dom then record g { rcpts = g.rcpts ++ (addr ∷ []) } ∷ groups else g ∷ rest

  unfoldable pub group_recipients : List Group → List Text → Result Text (List Group)
  group_recipients groups [] = ok groups
  group_recipients groups (raw ∷ to) = elim (recipient_domain (trim_space raw)) [
    | none ↦ err (codes "invalid recipient: " ++ trim_space raw)
    | some dom ↦ group_recipients (add_to dom (trim_space raw) groups) to
  ]

  delivery_errors : Text → Text → Network Group → List Group → List Text
  delivery_errors from msg net [] = []
  delivery_errors from msg net (g ∷ groups) =
      let rest = delivery_errors from msg net groups in
      elim (deliver_to_domain from msg net g) [
        | none ↦ rest
        | some e ↦ (g.domain ++ (codes ": " ++ e)) ∷ rest
      ]

  send_groups : Text → Text → Network Group → Result Text (List Group) → Option Text
  unfolding delivery_errors
  send_groups from msg net (err e) = some e
  send_groups from msg net (ok groups) =
      let errs = delivery_errors from msg net (net.order groups) in
      if is_empty errs
      then none
      else some (codes "direct delivery failed: " ++ join errs (codes "; "))

  -- Send of a directSender
  unfoldable pub send_direct : Text → Text → Network Group → List Text → Option Text
  unfolding send_groups
  send_direct from msg net to = send_groups from msg net (group_recipients [] to)
