-- ===== src/Relay/Accepted.antt =====
-- About sender/sender.go and handlers/send.go: mail that is answered as accepted.
use tempmail.Prelude.{◌≡◌, ◌⊎◌, refl, inl, inr, Bool, true, false, none, List, All, Any, Bool-cases}
use tempmail.Text.{Text, Unicode, trim_space}
use tempmail.Models.{Result, ok}
use tempmail.Compose.{Sources}
use tempmail.Http.{accepted, reply}
use tempmail.Direct.{Group}
use tempmail.Direct.Delivered.{
  Taken, and_then-none, smtp_client_send-Taken, Delivered, send_direct-Delivered,
}
use tempmail.Sending.{SendHandler, SendRequest, Delivery, prepare, send}
use tempmail.Sending.Accepted.{send_accepted}
use tempmail.Relay.{
  RelayNetwork, RelaySender, Sender, relayed, direct, Outbound, auth_of, is_smtps, answers_of,
  send_tls, upgraded, send_start_tls, relay_send, sender_send,
}

module _ (net : RelayNetwork) (s : RelaySender) (from msg : Text) where
  -- The relay took the sender, the recipients and the message: over TLS from the first byte; or over
  -- the connection that was upgraded, or in the clear if the relay does not offer STARTTLS; or by
  -- smtp.SendMail.
  abbrev pub Relayed : List Text → Type 0
  Relayed to =
      ((s.start_tls ≡ false)
        × (is_smtps s.port ≡ true)
        × (net.dial_tls s.host s.port ≡ none)
        × Taken from msg ((answers_of net s).session true) to)
      ⊎ ((s.start_tls ≡ true)
          × (net.dial s.host s.port ≡ none)
          × ((((answers_of net s).offers_start_tls ≡ true)
                × ((answers_of net s).start_tls ≡ none)
                × Taken from msg ((answers_of net s).session true) to)
              ⊎ (((answers_of net s).offers_start_tls ≡ false)
                  × Taken from msg ((answers_of net s).session false) to)))
      ⊎ ((s.start_tls ≡ false)
          × (is_smtps s.port ≡ false)
          × (net.send_mail s.host s.port (auth_of s) from to msg ≡ none))

  upgraded-Taken :
      (offers : Bool) (to : List Text)
      → (answers_of net s).offers_start_tls ≡ offers
      → upgraded net s from msg offers to ≡ none
      → ((offers ≡ true)
          × ((answers_of net s).start_tls ≡ none)
          × Taken from msg ((answers_of net s).session true) to)
        ⊎ ((offers ≡ false) × Taken from msg ((answers_of net s).session false) to)
  unfolding upgraded
  upgraded-Taken true to e h =
      let (started, sent) = and_then-none (answers_of net s).start_tls _ h in
      inl
        (refl, started, smtp_client_send-Taken from msg ((answers_of net s).session true) _ to sent)
  upgraded-Taken false to e h =
      inr (refl, smtp_client_send-Taken from msg ((answers_of net s).session false) _ to h)

  send_start_tls-Relayed :
      (to : List Text) → s.start_tls ≡ true → send_start_tls net s from msg to ≡ none → Relayed to
  unfolding send_start_tls
  send_start_tls-Relayed to e h =
      let (dialed, h₁) = and_then-none (net.dial s.host s.port) _ h in
      let (_, h₂) = and_then-none ((answers_of net s).session false).greet _ h₁ in
      inr (inl (e, dialed, upgraded-Taken (answers_of net s).offers_start_tls to refl h₂))

  send_tls-Relayed :
      (to : List Text)
      → s.start_tls ≡ false
      → is_smtps s.port ≡ true
      → send_tls net s from msg to ≡ none
      → Relayed to
  unfolding send_tls
  send_tls-Relayed to e k h =
      let (dialed, h₁) = and_then-none (net.dial_tls s.host s.port) _ h in
      let (_, h₂) = and_then-none ((answers_of net s).session true).greet _ h₁ in
      inl (e, k, dialed, smtp_client_send-Taken from msg ((answers_of net s).session true) _ to h₂)

  -- If a delivery through the relay returns no error, the relay took the sender, every recipient and the
  -- message to its end: over implicit TLS if STARTTLS is off and the port is 465; on a connection that was
  -- upgraded if STARTTLS is on and the relay offers it, and in the clear if it does not; and by
  -- smtp.SendMail otherwise.
  pub relay_send-Relayed : (to : List Text) → relay_send net s from msg to ≡ none → Relayed to
  unfolding relay_send
  relay_send-Relayed to h = elim (Bool-cases s.start_tls) [
    | inl e ↦ send_start_tls-Relayed to e (rw e at h)
    | inr e ↦ elim (Bool-cases (is_smtps s.port)) [
      | inl k ↦ send_tls-Relayed to e k (rw (e, k) at h)
      | inr k ↦ inr (inr (e, k, rw (e, k) at h))
    ]
  ]

module _ ⦃u : Unicode⦄ (out : Outbound) where
  -- The mail has arrived: at the relay, or for each recipient at a host of its domain.
  abbrev pub Arrived : Sender → Delivery → Type 0
  Arrived (relayed s) call = Relayed out.relay s call.from call.message call.to
  Arrived direct call =
      All (λ raw. Delivered call.from call.message out.hosts (trim_space raw)) call.to

  module _
      (keeps : (g : Group) (groups : List Group)
        → Any (λ h. h ≡ g) groups
        → Any (λ h. h ≡ g) (out.hosts.order groups)) where
    sender_send-Arrived :
        (sender : Sender) (call : Delivery)
        → sender_send out sender call ≡ none
        → Arrived sender call
    unfolding sender_send
    sender_send-Arrived (relayed s) call h =
        relay_send-Relayed out.relay s call.from call.message call.to h
    sender_send-Arrived direct call h =
        send_direct-Delivered call.from call.message out.hosts keeps call.to h

    -- If POST /api/send answers 200, the mail was composed, and its text has arrived with its sender for the recipients of
    -- the answer: at the relay, or for each of them at a host of its domain. The order in which a direct delivery
    -- visits the domains leaves none out.
    pub send-Arrived :
        (h : SendHandler) (src : Sources) (sender : Sender) (body : Result Text SendRequest)
        (to : List Text)
        → send h src (sender_send out sender) body ≡ reply 200 (accepted to)
        → (call : Delivery) × (prepare h src body ≡ ok call) × (call.to ≡ to) × Arrived sender call
    send-Arrived h src sender body to e =
        let (call, prepared, same, sent) = send_accepted h src (sender_send out sender) body to e in
        (call, prepared, same, sender_send-Arrived sender call sent)
