-- ===== src/Examples/Writing.antt =====
-- Mail that goes out.
use tempmail.Prelude.{◌≡◌, ◌≢◌, refl, true, some, List, [], ◌∷◌, ◌++◌, All, Any, arith}
use tempmail.Text.{Text, codes, to_lower, trim_space}
use tempmail.Models.{Result, ok}
use tempmail.Compose.{build_message, all_fields, content, crlf, write_lines}
use tempmail.Compose.Block.{IsClean, parse_message, parse_message-build_message}
use tempmail.Sending.{Delivery, SendRequest, sender_address, domain_allowed, chosen_from, prepare}
use tempmail.Sending.Policy.{IsCanonical, prepare_lem}
use tempmail.Examples.Fixtures.{ascii, domains, letter, send_handler, sources}

sources-IsClean : IsClean sources
sources-IsClean = record {
  uuid = omega arith;
  date = omega arith;
  boundary = omega arith;
  words = λ s. omega arith;
}

abbrev to_ann : List Text
to_ann = codes "ann@y.org" ∷ []

abbrev letter_block : Text
letter_block =
    write_lines (all_fields sources (codes "bob@x.io") to_ann (codes "Hello") (codes "hi") [])
    ++ (crlf ++ (content sources (codes "hi") []).1)

built :
    build_message sources (codes "bob@x.io") to_ann (codes "Hello") (codes "hi") []
    ≡ ok letter_block
unfolding build_message all_fields trim_space
built = refl

parse_message-build_message_example :
    parse_message letter_block
    ≡ some (
      all_fields sources (codes "bob@x.io") to_ann (codes "Hello") (codes "hi") [],
      (content sources (codes "hi") []).1,
    )
parse_message-build_message_example =
    parse_message-build_message sources sources-IsClean (codes "bob@x.io") to_ann (codes "Hello")
      (codes "hi") [] letter_block (omega arith) (omega arith) built

allowed : domain_allowed (codes "Team <no-reply@X.io>") domains ≡ true
unfolding domain_allowed sender_address to_lower trim_space
allowed = refl

abbrev some_letter : Result Text SendRequest
some_letter = ok letter

abbrev call : Delivery
call = record {
  from = codes "Team <no-reply@x.io>";
  to = to_ann;
  message =
      write_lines
        (all_fields sources (codes "Team <no-reply@x.io>") to_ann (codes "Hello") (codes "hi") [])
      ++ (crlf ++ (content sources (codes "hi") []).1);
}

prepared : prepare send_handler sources (ok letter) ≡ ok call
unfolding prepare trim_space domain_allowed to_lower build_message all_fields
prepared = refl

prepare_lem_example :
    (req : SendRequest) × (some_letter ≡ ok req)
    × (call.from ≡ chosen_from send_handler sources req)
    × Any (λ domain. (local : Text) × (sender_address call.from ≡ local ++ (b'@' ∷ domain))) domains
    × (call.to ≢ [])
    × All IsCanonical call.to
    × (build_message sources call.from call.to req.subject req.text req.html ≡ ok call.message)
prepare_lem_example = prepare_lem send_handler sources some_letter call prepared
