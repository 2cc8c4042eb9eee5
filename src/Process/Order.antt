-- ===== src/Process/Order.antt =====
-- About the shutdown of main.go: what has been closed when the process exits.
use tempmail.Prelude.{
  ℕ, ◌<◌, ◌≤◌, ◌≡◌, ◌⊎◌, ◌∙◌, inl, inr, ap, subst, Bool, true, false, Bool-cases, Option, none,
  some, arith,
}
use tempmail.Prelude.Int.{ℤ}
use tempmail.Models.{Time}
use tempmail.Ingest.{Err, OnDemand, enter, finish, close}
use tempmail.Process.{
  Place, serving, notified, stop_closed, smtp_cancelled, shutting_down, shut_down, waiting, exited,
  died, Process, begun, close_demand, IsIdle, IsAlive, ◌▷◌, request, respond, sync, fetched,
  clean_up_returns, smtp_returns, listen_fails, signal, close_stop, cancel_smtp, close_listener,
  drained, time_out, close_ingestion, exit, Reach, here, next,
}

-- how many calls of the shutdown main has made
stage : Place → ℕ
stage serving = 0
stage notified = 1
stage stop_closed = 2
stage smtp_cancelled = 3
stage shutting_down = 4
stage (shut_down b) = 5
stage (waiting b) = 6
stage (exited b) = 7
stage died = 0

-- Shutdown has returned before its 5 seconds were over
in_time : Place → Bool
in_time (shut_down b) = b
in_time (waiting b) = b
in_time (exited b) = b
in_time _ = false

in_time-stage : (q : Place) → in_time q ≡ true → 5 ≤ stage q
unfolding in_time stage
in_time-stage q h = ground arith

alive-stage : (q : Place) → IsAlive q → stage q < 7
unfolding stage
alive-stage q h = ground arith

-- No fetch begins any more, if there is an ingestion.
abbrev pub IsClosed : Option OnDemand → Type 0
IsClosed none = Unit
IsClosed (some o) = o.closed ≡ true

IsClosed-enter :
    (e : Err) (now : Time) (o : OnDemand) → o.closed ≡ true → (enter e now o).1.closed ≡ true
unfolding enter
IsClosed-enter (some e) now o h = h
IsClosed-enter none now o h = ground arith

IsClosed-close : (q : Option OnDemand) → IsClosed (close_demand q)
unfolding close_demand close
IsClosed-close none = tt
IsClosed-close (some o) = ground arith

pub record Inv (p : Process) : Type 0 where
  stopped : 2 ≤ stage p.place → p.stopped ≡ true
  cancelled : 3 ≤ stage p.place → p.cancelled ≡ true
  quiet : 4 ≤ stage p.place → p.listening ≡ false
  empty : in_time p.place ≡ true → p.requests ≡ 0
  closed : 6 ≤ stage p.place → IsClosed p.demand
  idle : 7 ≤ stage p.place → IsIdle p.demand

▷-Inv : {p q : Process} → p ▷ q → Inv p → Inv q
unfolding stage in_time
▷-Inv {p} (request alive live) i = ground (arith, in_time-stage p.place)
▷-Inv {p} (respond alive some_left) i = ground arith
▷-Inv {p} (sync e now o alive some_left q) i =
    let k : 6 ≤ stage p.place → o.closed ≡ true = λ h. subst IsClosed q (i.closed h) in
    ground (arith, alive-stage p.place alive, IsClosed-enter e now o)
▷-Inv {p} (fetched n e now o alive q same) i =
    let k : 6 ≤ stage p.place → o.closed ≡ true = λ h. subst IsClosed q (i.closed h) in
    unfold finish in ground (arith, alive-stage p.place alive)
▷-Inv (clean_up_returns alive r s) i = ground arith
▷-Inv (smtp_returns alive r) i = ground arith
▷-Inv (listen_fails alive live) i = ground arith
▷-Inv (signal e) i = ground arith
▷-Inv (close_stop e) i = ground arith
▷-Inv (cancel_smtp e) i = ground (arith, ap stage e)
▷-Inv (close_listener e) i = ground (arith, ap stage e)
▷-Inv (drained e none_left) i = ground (arith, ap stage e)
▷-Inv (time_out e) i = ground (arith, ap stage e)
▷-Inv {p} (close_ingestion b e) i =
    ground (arith, ap stage e, ap in_time e, IsClosed-close p.demand)
▷-Inv (exit b e rest) i = ground (arith, ap stage e, ap in_time e)

pub Reach-Inv :
    (smtp : Bool) (interval : Option ℤ) {p : Process} → Reach (begun smtp interval) p → Inv p
unfolding stage in_time begun
Reach-Inv smtp interval here = record {
  stopped = λ h. absurd (omega arith);
  cancelled = λ h. absurd (omega arith);
  quiet = λ h. absurd (omega arith);
  empty = λ h. cc;
  closed = λ h. absurd (omega arith);
  idle = λ h. absurd (omega arith);
}
Reach-Inv smtp interval (next r step) = ▷-Inv step (Reach-Inv smtp interval r)

-- What the shutdown has brought about: the clean-up was told to stop and the SMTP server was cancelled, the
-- listener is closed, the ingestion begins no fetch and none runs, and either the 5 seconds were over or no
-- handler was left.
abbrev pub IsShutDown : Bool → Process → Type 0
IsShutDown b p =
    (p.stopped ≡ true)
    × (p.cancelled ≡ true)
    × (p.listening ≡ false)
    × IsClosed p.demand
    × IsIdle p.demand
    × ((b ≡ false) ⊎ (p.requests ≡ 0))

-- However the requests, the fetches, the goroutines and the signal are interleaved, when main has reached its end
-- the clean-up was told to stop and the SMTP server was cancelled, the listener is closed, the ingestion begins no
-- fetch and none runs, and no handler was left, unless the 5 seconds of Shutdown were over.
pub Reach-IsShutDown :
    (smtp : Bool) (interval : Option ℤ) {p : Process} (b : Bool)
    → Reach (begun smtp interval) p
    → p.place ≡ exited b
    → IsShutDown b p
unfolding stage in_time
Reach-IsShutDown smtp interval {p} b r e =
    let i = Reach-Inv smtp interval r in
    (
      i.stopped (omega (arith, ap stage e)),
      i.cancelled (omega (arith, ap stage e)),
      i.quiet (omega (arith, ap stage e)),
      i.closed (omega (arith, ap stage e)),
      i.idle (omega (arith, ap stage e)),
      elim (Bool-cases b) [ inl q ↦ inr (i.empty (ap in_time e ∙ q)) | inr q ↦ inl q ],
    )
