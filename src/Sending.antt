-- ===== src/Sending.antt =====
-- handlers/send.go: outgoing mail, and who may send it.
pub mod Accepted
pub mod Policy
use tempmail.Prelude.{
  ℕ, zero, suc, ◌+◌, ◌-◌, Bool, true, false, not, ◌&&◌, ◌||◌, Option, none, some, List, [], ◌∷◌,
  ltb, leb, length, take, drop, is_empty, if◌then◌else◌,
}
use tempmail.Text.{Text, Unicode, codes, same, index, last_index, trim_space, to_lower, contains}
use tempmail.Models.{Result, ok, err, ◌>>=◌}
use tempmail.Recipient.{slice}
use tempmail.Compose.{Sources, build_message}
use tempmail.Http.{Response, error, accepted, rejected, reply}

-- the JSON value of the field `to`; a field that is not there is left nil, as `null` is
pub data RecipientsJson : Type 0 where
  null : RecipientsJson
  texts : List Text → RecipientsJson
  text : Text → RecipientsJson
  other : Text → RecipientsJson

pub record SendRequest : Type 0 where
  pub from : Text
  pub to : List Text
  pub subject : Text
  pub text : Text
  pub html : Text

pub record SendHandler : Type 0 where
  pub domains : List Text
  pub default_from : Text

-- the arguments of Sender.Send
pub record Delivery : Type 0 where
  pub from : Text
  pub to : List Text
  pub message : Text

bad_request : Text → Response
bad_request e = reply 400 (error e)

-- the address between the last `<` and the first `>` after it
unbracket_at : Text → ℕ → Option ℕ → Text
unbracket_at addr i none = addr
unbracket_at addr i (some j) = if ltb 0 j then slice addr (suc i) (i + j) else addr

unbracket : Text → Option ℕ → Text
unfolding unbracket_at
unbracket addr none = addr
unbracket addr (some i) = unbracket_at addr i (index (drop i addr) b'>')

domain_listed : List Text → Text → Option ℕ → Bool
domain_listed domains addr none = false
domain_listed domains addr (some at) =
    if leb (length addr) (suc at) then false else contains domains (drop (suc at) addr)

module _ ⦃u : Unicode⦄ where
  -- recipients.UnmarshalJSON
  unfoldable pub unmarshal_recipients : RecipientsJson → Result Text (List Text)
  unmarshal_recipients null = ok []
  unmarshal_recipients (texts arr) = ok arr
  unmarshal_recipients (other e) = err e
  unmarshal_recipients (text s) = let t = trim_space s in if is_empty t then ok [] else ok (t ∷ [])

  unfoldable pub sender_address : Text → Text
  unfolding unbracket
  sender_address addr = let a = to_lower (trim_space addr) in unbracket a (last_index a b'<')

  unfoldable pub domain_allowed : Text → List Text → Bool
  unfolding sender_address domain_listed
  domain_allowed addr domains =
      let a = sender_address addr in domain_listed domains a (last_index a b'@')

  pub clean_recipients : List Text → List Text
  clean_recipients [] = []
  clean_recipients (raw ∷ rest) =
      let more = clean_recipients rest in
      let addr = to_lower (trim_space raw) in if is_empty addr then more else addr ∷ more

  module _ (h : SendHandler) (src : Sources) where
    unfoldable pub chosen_from : SendRequest → Text
    chosen_from req =
        let from = trim_space req.from in if is_empty from then trim_space h.default_from else from

    composed : SendRequest → Text → List Text → Result Response Delivery
    composed req from to = elim (build_message src from to req.subject req.text req.html) [
      | ok msg ↦ ok (record { from = from; to = to; message = msg })
      | err e ↦ err (bad_request e)
    ]

    checked : SendRequest → Text → List Text → Result Response Delivery
    unfolding composed bad_request
    checked req from to =
        if is_empty from
        then err (bad_request (codes "from is required"))
        else if not (domain_allowed from h.domains)
        then err (bad_request (codes "from domain is not allowed"))
        else if is_empty to
        then err (bad_request (codes "to is required"))
        else if is_empty (trim_space req.text) && is_empty (trim_space req.html)
        then err (bad_request (codes "text or html body is required"))
        else composed req from to

    -- Send up to the call of the sender: the call that is made, or the refusal
    unfoldable pub prepare : Result Text SendRequest → Result Response Delivery
    unfolding checked chosen_from clean_recipients bad_request
    prepare (err e) = err (bad_request e)
    prepare (ok req) = checked req (chosen_from req) (clean_recipients req.to)

    delivery_reply : (Delivery → Option Text) → Result Response Delivery → Response
    delivery_reply deliver (err refusal) = refusal
    delivery_reply deliver (ok call) = elim (deliver call) [
      | none ↦ reply 200 (accepted call.to)
      | some e ↦ reply 502 (rejected e call.to)
    ]

    -- Send; `deliver` is Sender.Send with its error
    unfoldable pub send : (Delivery → Option Text) → Result Text SendRequest → Response
    unfolding prepare delivery_reply
    send deliver body = delivery_reply deliver (prepare body)
