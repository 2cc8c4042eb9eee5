-- ===== src/Examples/Serving.antt =====
-- Requests to the API.
use tempmail.Prelude.{true, false, ◌⊎◌, arith, ◌≡◌, ◌≢◌, refl, inl, [], ◌∷◌}
use tempmail.Prelude.Int.{pos}
use tempmail.Text.{to_lower}
use tempmail.Database.{without_raw}
use tempmail.Database.Memory.{memory, steady}
use tempmail.Database.Memory.Laws.{memory-IsRelational, steady-IsRelational, steady-finds}
use tempmail.Http.{reply, message_list}
use tempmail.Routing.{IsRouted}
use tempmail.Access.{extract_key}
use tempmail.Mailboxes
use tempmail.Messages
use tempmail.Messages.Addresses.{Lists}
use tempmail.Messages.Listing.{list_messages-Lists}
use tempmail.Server
use tempmail.Server.{webhook, cleanup_tick}
use tempmail.Webhook.{WebhookPayload}
use tempmail.Prelude.Int.{ltb_ℤ, negsuc, ◌*ℤ◌, wrap64}
use tempmail.Server.{tick_interval}
use tempmail.Server.Interval.{Lasts, tick_interval-positive}
use tempmail.Server.Refined.{cleanup_tick-Sweeps}
use tempmail.Mailboxes.Viewed.{Expires, Ages}
use tempmail.Mailroom.Statements.{view}
use tempmail.Examples.Fixtures.{
  ascii, bob, bob_mail, services, no_tables, one_mail, bob_message, message_handler, app,
  no_delivery, without_key,
}

one_mail-IsRouted : IsRouted memory one_mail
one_mail-IsRouted = record {
  housed = (inl (refl, refl), tt);
  named = (refl, tt);
  distinct_ids = (tt, tt);
  distinct_addresses = (tt, tt);
}

no_tables-IsRouted : IsRouted memory no_tables
no_tables-IsRouted = record { housed = tt; named = tt; distinct_ids = tt; distinct_addresses = tt }

abbrev payload : WebhookPayload
payload = record { from = []; to = []; subject = []; raw = bob_mail }

listed :
    (Messages.list_messages message_handler steady services.next_year
      (λ s. s)
      bob
      (pos 4)
      one_mail).0
    ≡ reply 200 (message_list (without_raw bob_message ∷ []))
unfolding Messages.list_messages to_lower
listed = refl

list_messages-Lists_example :
    Lists bob
      (steady.messages
        (Messages.list_messages message_handler steady services.next_year
          (λ s. s)
          bob
          (pos 4)
          one_mail).1)
      (without_raw bob_message ∷ [])
unfolding to_lower
list_messages-Lists_example =
    list_messages-Lists message_handler steady steady-IsRelational steady-finds services.next_year
      (λ s. s) bob (pos 4) one_mail (without_raw bob_message ∷ []) one_mail-IsRouted listed

wrong_key : extract_key without_key ≢ app.api_key
unfolding extract_key
wrong_key e = cc e

cleanup_tick-Sweeps_example :
    let t = (memory.delete_expired (pos 10) one_mail).1 in
    Expires memory (pos 10) one_mail (view memory t)
    × (((ltb_ℤ (pos 0) app.message_ttl_hours ≡ true)
          × Ages memory (Mailboxes.hours app.message_ttl_hours) (pos 11) t (
              view memory
                (cleanup_tick memory services app no_delivery (pos 10) (pos 11) one_mail)))
        ⊎ ((ltb_ℤ (pos 0) app.message_ttl_hours ≡ false)
            × (view memory (cleanup_tick memory services app no_delivery (pos 10) (pos 11) one_mail)
                ≡ view memory t)))
cleanup_tick-Sweeps_example =
    cleanup_tick-Sweeps app memory memory-IsRelational services no_delivery (pos 10) (pos 11)
      one_mail one_mail-IsRouted

tick_interval-positive_example : Lasts (tick_interval (pos 0)) 30
tick_interval-positive_example = tick_interval-positive (pos 0) (omega arith)

-- One minute more than the bound, and the interval is negative.
wrapped : tick_interval (pos 153722868) ≡ negsuc 9223371993709551615
unfolding tick_interval ◌*ℤ◌ wrap64
wrapped = refl
