-- ===== src/Ingest.antt =====
-- ingest/ondemand.go: one fetch at a time, shared by all the requests that wait for mail. A step is
-- what one goroutine does while it holds the mutex, or the delivery of a fetch's outcome; the
-- goroutines are interleaved in any order.
pub mod Exclusion
use tempmail.Prelude.{
  ℕ, zero, suc, ◌+◌, ◌≤◌, ◌<◌, ◌≡◌, ◌≢◌, refl, Bool, true, false, not, ◌&&◌, Option, none, some,
  List, [], ◌∷◌, ltb, ◌==◌, ◌-◌, if◌then◌else◌,
}
use tempmail.Prelude.Int.{ℤ, pos, ◌-ℤ◌, ltb_ℤ}
use tempmail.Text.{Text}
use tempmail.Models.{Time}

-- an error, or nil
abbrev pub Err : Type 0
Err = Option Text

-- The fields of OnDemand. A call is named by its number, and its outcome is known when its channel
-- is closed: `outcome n` is `some err` from then on. `running` counts what the wait group counts;
-- `fetch_ctx` says that the context of the fetches was made, and `cancelled` that it was cancelled.
pub record OnDemand : Type 0 where
  pub min_interval : ℤ
  pub inflight : Option ℕ
  pub last_done : Option Time
  pub last_err : Err
  pub closed : Bool
  pub outcome : ℕ → Option Err
  pub next_call : ℕ
  pub running : ℕ
  pub fetch_ctx : Bool
  pub cancelled : Bool

abbrev pub start : ℤ → OnDemand
start interval = record {
  min_interval = interval;
  inflight = none;
  last_done = none;
  last_err = none;
  closed = false;
  outcome = λ n. none;
  next_call = 0;
  running = 0;
  fetch_ctx = false;
  cancelled = false;
}

-- what SyncContext finds before it waits: the caller's own end, an answer, or a call to wait for
pub data Entry : Type 0 where
  ended : Text → Entry
  canceled : Entry
  recent : Err → Entry
  wait : ℕ → Entry

-- `MinInterval > 0 && !lastDone.IsZero() && time.Since(lastDone) < MinInterval`
unfoldable pub is_recent : Time → OnDemand → Bool
is_recent now o = elim o.last_done [
  | none ↦ false
  | some t ↦ ltb_ℤ (pos 0) o.min_interval && ltb_ℤ (now -ℤ t) o.min_interval
]

-- a new call, whose fetch runs on its own
start_call : OnDemand → OnDemand
start_call o = record o {
  inflight = some o.next_call;
  next_call = suc o.next_call;
  running = suc o.running;
  fetch_ctx = true;
}

join_or_start : Time → OnDemand → Option ℕ → Entry × OnDemand
unfolding start_call is_recent
join_or_start now o (some n) = (wait n, o)
join_or_start now o none =
    if is_recent now o then (recent o.last_err, o) else (wait o.next_call, start_call o)

-- SyncContext up to Unlock, for a caller whose context has ended or not
unfoldable pub enter : Err → Time → OnDemand → Entry × OnDemand
unfolding join_or_start
enter (some e) now o = (ended e, o)
enter none now o = if o.closed then (canceled, o) else join_or_start now o o.inflight

-- the deferred function of fetch, under the mutex: `err` is what FetchOnce returned or the text of
-- its panic
unfoldable pub finish : ℕ → Err → Time → OnDemand → OnDemand
finish n e now o = record o {
  outcome = λ m. if m == n then some e else o.outcome m;
  last_done = some now;
  last_err = e;
  inflight = none;
  running = o.running - 1;
}

-- Close up to wg.Wait
unfoldable pub close : OnDemand → OnDemand
close o = if o.closed then o else record o { closed = true; cancelled = o.fetch_ctx }

-- the last part of SyncContext: the outcome of the call, or the caller's own end. Where both are ready, `select`
-- takes either of the two: `picks_call` says which.
unfoldable pub await : Bool → ℕ → Err → OnDemand → Option Err
await picks_call n ctx_err o = elim (o.outcome n) [
  | some e ↦ elim ctx_err [ some x ↦ some (if picks_call then e else some x) | none ↦ some e ]
  | none ↦ elim ctx_err [ some x ↦ some (some x) | none ↦ none ]
]

infix 40 ◌⟶◌
-- One step. A fetch that ends is the one of a call that runs.
pub data ◌⟶◌ : OnDemand → OnDemand → Type 0 where
  sync : (e : Err) (now : Time) (o : OnDemand) → o ⟶ (enter e now o).1
  done : (n : ℕ) (e : Err) (now : Time) (o : OnDemand) → o.inflight ≡ some n → o ⟶ finish n e now o
  shut : (o : OnDemand) → o ⟶ close o

pub data Reach (s : OnDemand) : OnDemand → Type 0 where
  here : Reach s s
  next : {t o : OnDemand} → Reach s t → t ⟶ o → Reach s o
