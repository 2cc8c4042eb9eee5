-- ===== src/Models.antt =====
-- models/models.go: the two tables, and the results that handlers and the database return.
use tempmail.Prelude.{◌≡◌, refl, ℕ, ◌*◌, ◌-◌, ◌^◌}
use tempmail.Prelude.Int.{ℤ, negsuc}
use tempmail.Text.{Text}

-- An instant is its number of nanoseconds since the Unix epoch.
abbrev pub Time : Type 0
Time = ℤ

-- the zero time.Time, midnight of 1 January of the year 1
abbrev pub zero_time : Time
zero_time = negsuc (62135596800 * 10 ^ 9 - 1)

-- The field `Messages` is filled by one query alone, which returns it beside the mailbox.
pub record Mailbox : Type 0 where
  pub id : ℕ
  pub address : Text
  pub name : Text
  pub created_at : Time
  pub expires_at : Time

pub record Message : Type 0 where
  pub id : ℕ
  pub mailbox_id : ℕ
  pub graph_id : Text
  pub from : Text
  pub to : Text
  pub subject : Text
  pub text_body : Text
  pub html_body : Text
  pub raw : Text
  pub received_at : Time

-- A Go function's (value, error).
pub data Result (E A : Type 0) : Type 0 where
  ok : A → Result E A
  err : E → Result E A

-- A call, and what follows it unless it failed.
infixl 5 ◌>>=◌
abbrev pub ◌>>=◌ : {E A B : Type 0} → Result E A → (A → Result E B) → Result E B
err failure >>= next = err failure
ok value >>= next = next value

-- A chain that succeeds has a first call that does.
pub >>=-eq-ok :
    {E A B : Type 0} (call : Result E A) (next : A → Result E B) {last : B}
    → (call >>= next) ≡ ok last
    → (value : A) × (call ≡ ok value) × (next value ≡ ok last)
>>=-eq-ok (err failure) next h = cc
>>=-eq-ok (ok value) next h = (value, refl, h)
