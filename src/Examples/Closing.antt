-- ===== src/Examples/Closing.antt =====
-- The start of a process, and a shutdown while a fetch runs.
use tempmail.Prelude.{◌≡◌, ◌≢◌, refl, ◌^◌, true, false, none, some, arith}
use tempmail.Prelude.Int.{ℤ, pos}
use tempmail.Ingest.{OnDemand, enter, start, finish, close, is_recent}
use tempmail.Process.{
  Process, begun, exited, died, close_demand, Reach, Reach-trans, smtp_cancelled, here, next,
  request, respond, sync, fetched, signal, close_stop, cancel_smtp, close_listener, drained,
  close_ingestion, exit,
}
use tempmail.Process.Order.{IsShutDown, Reach-IsShutDown}

abbrev interval : ℤ
interval = pos (10 ^ 9)

-- a request waits for a fetch
abbrev fetching : Process
fetching = record (begun true (some interval)) {
  requests = 1;
  demand = some (enter none (pos 1) (start interval)).1;
}

fetching-Reach : Reach (begun true (some interval)) fetching
unfolding begun
fetching-Reach =
    next (next here (request tt refl)) (sync none (pos 1) (start interval) tt (omega arith) refl)

lives : fetching.place ≢ died
unfolding begun
lives = λ e. cc e

-- the handler returned in time, and then the process exited
abbrev last : Process
last = record fetching {
  place = exited true;
  stopped = true;
  cancelled = true;
  listening = false;
  requests = 0;
  demand = some (finish 0 none (pos 5) (close (enter none (pos 1) (start interval)).1));
}

abbrev call : OnDemand
call = close (enter none (pos 1) (start interval)).1

running_call : call.inflight ≡ some 0
unfolding close enter is_recent
running_call = refl

over : (finish 0 none (pos 5) call).running ≡ 0
unfolding finish close enter is_recent
over = refl

stopping-Reach :
    Reach fetching (record fetching { place = smtp_cancelled; stopped = true; cancelled = true })
unfolding begun
stopping-Reach = next (next (next here (signal refl)) (close_stop refl)) (cancel_smtp refl)

last-Reach : Reach (begun true (some interval)) last
unfolding begun close_demand
last-Reach =
    next
      (next
        (next
          (next
            (next (next (Reach-trans fetching-Reach stopping-Reach) (close_listener refl))
              (respond tt (omega arith)))
            (drained refl refl))
          (close_ingestion true refl))
        (fetched 0 none (pos 5) call tt refl running_call))
      (exit true refl over)

Reach-IsShutDown_example : IsShutDown true last
Reach-IsShutDown_example = Reach-IsShutDown true (some interval) true last-Reach refl
