-- ===== src/Sending/Accepted.antt =====
-- About handlers/send.go: the answer 200.
use tempmail.Prelude.{
  ◌⊎◌, some, ◌≡◌, refl, Bool-cases, Option-cases, inl, inr, Option, none, List, ◌&&◌, is_empty,
  arith,
}
use tempmail.Text.{Text, Unicode, trim_space}
use tempmail.Models.{Result, ok, err}
use tempmail.Compose.{Sources, build_message}
use tempmail.Http.{Response, accepted, rejected, reply}
use tempmail.Mailroom.Tables.{View}
use tempmail.Mailroom.Contract.{Sends}
use tempmail.Sending.{
  SendHandler, SendRequest, Delivery, domain_allowed, clean_recipients, chosen_from, composed,
  checked, prepare, delivery_reply, send, bad_request,
}

module _ ⦃u : Unicode⦄ (h : SendHandler) (src : Sources) where
  -- a refusal, of status 400
  abbrev IsRefused : Result Response Delivery → Type 0
  IsRefused (ok call) = Unit {0}
  IsRefused (err r) = r.status ≡ 400

  composed-IsRefused :
      (req : SendRequest) (from : Text) (to : List Text) → IsRefused (composed h src req from to)
  unfolding composed bad_request
  composed-IsRefused req from to =
      by_message (build_message src from to req.subject req.text req.html)
    where
      by_message :
          (r : Result Text Text)
          → IsRefused (elim r [
            | ok msg ↦ ok (record { from = from; to = to; message = msg })
            | err e ↦ err (bad_request e)
          ])
      by_message (ok msg) = tt
      by_message (err e) = refl

  checked-IsRefused :
      (req : SendRequest) (from : Text) (to : List Text) → IsRefused (checked h src req from to)
  unfolding checked bad_request
  checked-IsRefused req from to = elim (Bool-cases (is_empty from)) [
    | inl e ↦ rw e refl
    | inr e ↦ elim (Bool-cases (domain_allowed from h.domains)) [
      | inr k ↦ rw (e, k) refl
      | inl k ↦ elim (Bool-cases (is_empty to)) [
        | inl l ↦ rw (e, k, l) refl
        | inr l ↦
            elim (Bool-cases (is_empty (trim_space req.text) && is_empty (trim_space req.html))) [
              | inl m ↦ rw (e, k, l, m) refl
              | inr m ↦ rw (e, k, l, m) (composed-IsRefused req from to)
            ]
      ]
    ]
  ]

  prepare-IsRefused : (body : Result Text SendRequest) → IsRefused (prepare h src body)
  unfolding prepare bad_request
  prepare-IsRefused (err e) = refl
  prepare-IsRefused (ok req) =
      checked-IsRefused req (chosen_from h src req) (clean_recipients req.to)

  -- What was answered as accepted was handed to the sender, which took it.
  delivery_reply-accepted :
      (deliver : Delivery → Option Text) (r : Result Response Delivery) (to : List Text)
      → IsRefused r
      → delivery_reply h src deliver r ≡ reply 200 (accepted to)
      → (call : Delivery) × (r ≡ ok call) × (call.to ≡ to) × (deliver call ≡ none)
  unfolding delivery_reply
  delivery_reply-accepted deliver (err refusal) to refused e = absurd (ground arith)
  delivery_reply-accepted deliver (ok call) to refused e = elim (Option-cases (deliver call)) [
    | inl sent ↦ (call, refl, ground arith, sent)
    | inr (x, failed) ↦ absurd (ground arith)
  ]

  pub send_accepted :
      (deliver : Delivery → Option Text) (body : Result Text SendRequest) (to : List Text)
      → send h src deliver body ≡ reply 200 (accepted to)
      → (call : Delivery) × (prepare h src body ≡ ok call) × (call.to ≡ to) × (deliver call ≡ none)
  unfolding send
  send_accepted deliver body to e =
      delivery_reply-accepted deliver (prepare h src body) to (prepare-IsRefused body) e

  -- the mail of a request, which the sender took
  abbrev pub IsTaken : (Delivery → Option Text) → Result Text SendRequest → List Text → Type 0
  IsTaken deliver body to =
      (call : Delivery) × (prepare h src body ≡ ok call) × (call.to ≡ to) × (deliver call ≡ none)

  -- a request that is refused, or mail that the sender did not take
  abbrev pub IsUnsent : (Delivery → Option Text) → Result Text SendRequest → Response → Type 0
  IsUnsent deliver body r =
      (prepare h src body ≡ err r)
      ⊎ ((call : Delivery) × (e : Text) × (prepare h src body ≡ ok call)
          × (deliver call ≡ some e)
          × (r ≡ reply 502 (rejected e call.to)))

  delivery_reply-Sends :
      (deliver : Delivery → Option Text) (body : Result Text SendRequest)
      (r : Result Response Delivery) (v : View)
      → prepare h src body ≡ r
      → Sends (IsTaken deliver body) (IsUnsent deliver body) v (delivery_reply h src deliver r) v
  unfolding delivery_reply
  delivery_reply-Sends deliver body (err refusal) v q = (inr (inl q), refl)
  delivery_reply-Sends deliver body (ok call) v q = elim (Option-cases (deliver call)) [
    | inl e ↦ rw (e, delivery_reply) (inl (call.to, refl, (call, q, refl, e)), refl)
    | inr (x, e) ↦ rw (e, delivery_reply) (inr (inr (call, x, q, e, refl)), refl)
  ]

  pub send-Sends :
      (deliver : Delivery → Option Text) (body : Result Text SendRequest) (v : View)
      → Sends (IsTaken deliver body) (IsUnsent deliver body) v (send h src deliver body) v
  unfolding send
  send-Sends deliver body v = delivery_reply-Sends deliver body (prepare h src body) v refl
