-- ===== src/Process.antt =====
-- main.go: the start of the process, its goroutines, and its shutdown after a signal.
pub mod Started
pub mod Order
use tempmail.Prelude.{
  ℕ, zero, suc, ◌-◌, ◌<◌, ◌≡◌, Bool, true, false, Option, none, some, List, [], ◌∷◌,
}
use tempmail.Prelude.Int.{ℤ}
use tempmail.Text.{Text, Unicode}
use tempmail.Models.{Time, Result, ok, err}
use tempmail.Config.{Config, load}
use tempmail.Config.Values.{Env, ConfigError}
use tempmail.Storage.{Driver, open_db}
use tempmail.Ingest.{Err, OnDemand, start, enter, finish, close}

-- what log.Fatalf ends the start with
pub data StartError : Type 0 where
  config_error : ConfigError → StartError
  db_error : Text → StartError

module _ {Handle Pool : Type 0} (drv : Driver Handle Pool) where
  opened_for : Config → Result Text Handle → Result StartError (Config × Handle)
  opened_for cfg (ok db) = ok (cfg, db)
  opened_for cfg (err e) = err (db_error e)

  loaded_as : Result ConfigError Config → Result StartError (Config × Handle)
  unfolding opened_for
  loaded_as (ok cfg) = opened_for cfg (open_db drv cfg.db_path)
  loaded_as (err e) = err (config_error e)

  -- main up to the handlers
  unfoldable pub start_up : ⦃u : Unicode⦄ → Env → Result StartError (Config × Handle)
  unfolding loaded_as
  start_up env = loaded_as (load env)

-- where main stands: before the signal, after each call of the shutdown, and at its end; `died` is the end by
-- log.Fatalf in the goroutine that listens
pub data Place : Type 0 where
  serving : Place
  notified : Place
  stop_closed : Place
  smtp_cancelled : Place
  shutting_down : Place
  shut_down : (in_time : Bool) → Place
  waiting : (in_time : Bool) → Place
  exited : (in_time : Bool) → Place
  died : Place

-- a goroutine: there is none, it runs, or it has returned
pub data Goroutine : Type 0 where
  absent : Goroutine
  running : Goroutine
  returned : Goroutine

-- `requests` counts the handlers that have not returned.
pub record Process : Type 0 where
  pub place : Place
  pub stopped : Bool
  pub cancelled : Bool
  pub listening : Bool
  pub requests : ℕ
  pub cleaner : Goroutine
  pub smtp : Goroutine
  pub demand : Option OnDemand

-- the process when main waits for the signal, for the interval of the ingestion if there is one
unfoldable pub begun : Bool → Option ℤ → Process
begun smtp_enabled interval = record {
  place = serving;
  stopped = false;
  cancelled = false;
  listening = true;
  requests = 0;
  cleaner = running;
  smtp = elim smtp_enabled [ true ↦ running | false ↦ absent ];
  demand = elim interval [ some i ↦ some (start i) | none ↦ none ];
}

-- onDemand.Close, up to the wait for the fetch, if there is an ingestion
unfoldable pub close_demand : Option OnDemand → Option OnDemand
close_demand none = none
close_demand (some o) = some (close o)

-- no fetch runs
abbrev pub IsIdle : Option OnDemand → Type 0
IsIdle none = Unit
IsIdle (some o) = o.running ≡ 0

abbrev pub IsAlive : Place → Type 0
IsAlive (exited b) = ⊥
IsAlive died = ⊥
IsAlive _ = Unit

infix 40 ◌▷◌
pub data ◌▷◌ (p : Process) : Process → Type 0 where
  -- the goroutines, while the process lives
  request : IsAlive p.place → p.listening ≡ true → p ▷ record p { requests = suc p.requests }
  respond : IsAlive p.place → 0 < p.requests → p ▷ record p { requests = p.requests - 1 }
  sync :
      (e : Err) (now : Time) (o : OnDemand)
      → IsAlive p.place
      → 0 < p.requests
      → p.demand ≡ some o
      → p ▷ record p { demand = some (enter e now o).1 }
  fetched :
      (n : ℕ) (e : Err) (now : Time) (o : OnDemand)
      → IsAlive p.place
      → p.demand ≡ some o
      → o.inflight ≡ some n
      → p ▷ record p { demand = some (finish n e now o) }
  clean_up_returns :
      IsAlive p.place → p.cleaner ≡ running → p.stopped ≡ true → p ▷ record p { cleaner = returned }
  -- Start returns when its context is cancelled, or with an error, which is logged
  smtp_returns : IsAlive p.place → p.smtp ≡ running → p ▷ record p { smtp = returned }
  listen_fails : IsAlive p.place → p.listening ≡ true → p ▷ record p { place = died }
  -- main
  signal : p.place ≡ serving → p ▷ record p { place = notified }
  close_stop : p.place ≡ notified → p ▷ record p { place = stop_closed; stopped = true }
  cancel_smtp : p.place ≡ stop_closed → p ▷ record p { place = smtp_cancelled; cancelled = true }
  -- Shutdown closes the listener, and returns when no request is left or after 5 seconds
  close_listener :
      p.place ≡ smtp_cancelled → p ▷ record p { place = shutting_down; listening = false }
  drained : p.place ≡ shutting_down → p.requests ≡ 0 → p ▷ record p { place = shut_down true }
  time_out : p.place ≡ shutting_down → p ▷ record p { place = shut_down false }
  close_ingestion :
      (b : Bool)
      → p.place ≡ shut_down b
      → p ▷ record p { place = waiting b; demand = close_demand p.demand }
  exit : (b : Bool) → p.place ≡ waiting b → IsIdle p.demand → p ▷ record p { place = exited b }

pub data Reach (p : Process) : Process → Type 0 where
  here : Reach p p
  next : {q r : Process} → Reach p q → q ▷ r → Reach p r

pub Reach-trans : {p q r : Process} → Reach p q → Reach q r → Reach p r
Reach-trans a here = a
Reach-trans a (next b step) = next (Reach-trans a b) step
