-- ===== src/Graph/Watch.antt =====
-- graph/poller.go: Run, which main does not start: the loop that fetches and then waits for the timer or for
-- the channel stop.
use tempmail.Prelude.{
  ℕ, ◌≡◌, ◌≢◌, refl, Bool, true, false, ◌||◌, any, arith, Option, none, some, List, [], ◌∷◌,
  if◌then◌else◌,
}
use tempmail.Prelude.Int.{ℤ, pos, ◌+ℤ◌, leb_ℤ}
use tempmail.Text.{Text, Unicode}
use tempmail.Models.{Time, Result}
use tempmail.Database.{Db}
use tempmail.Recipient.{GraphMessage}
use tempmail.Inbound.{Services, store_graph_message}
use tempmail.Graph.{Remote, Poller, second, fetch_once}
use tempmail.Graph.Kept.{fetch_once-Kept}

-- What a turn of the loop meets: whether the select takes the case of stop, and the time that the turn takes
-- beyond the interval, for its fetch and until the timer is served.
pub record Cycle : Type 0 where
  pub stopped : Bool
  pub took : ℕ

-- where the loop is after its turns: it has returned, a fetch has not ended, or it goes on
pub data LoopState : Type 0 where
  returned : LoopState
  fetching : LoopState
  looping : LoopState

-- the interval, and a second in place of what is not positive
unfoldable pub base_of : ℤ → ℤ
base_of interval = if leb_ℤ interval (pos 0) then second else interval

module _ ⦃u : Unicode⦄ {Conn : Type 0} (d : Db Conn) (sv : Services) (domains : List Text)
    (remote : Remote) where
  -- after FetchOnce, whose error is only logged
  after_fetch :
      (Poller → Conn → LoopState × Poller × Conn)
      → Bool
      → Option (Result Text (Unit {0})) × Poller × Conn
      → LoopState × Poller × Conn
  after_fetch rest stopped (none, p, c) = (fetching, p, c)
  after_fetch rest true (some r, p, c) = (returned, p, c)
  after_fetch rest false (some r, p, c) = rest p c

  cycles : ℕ → ℤ → List Cycle → Time → Poller → Conn → LoopState × Poller × Conn
  unfolding after_fetch
  cycles rounds base [] now p c = (looping, p, c)
  cycles rounds base (t ∷ ts) now p c =
      after_fetch (cycles rounds base ts (now +ℤ base +ℤ pos t.took)) t.stopped
        (fetch_once d sv domains remote rounds (λ k. now) p c)

  -- Run
  unfoldable pub run_loop : ℕ → ℤ → List Cycle → Time → Poller → Conn → LoopState × Poller × Conn
  unfolding cycles base_of
  run_loop rounds interval ts now p c = cycles rounds (base_of interval) ts now p c

  after_fetch-returned :
      (rest : Poller → Conn → LoopState × Poller × Conn) (stopped later : Bool)
      → ((p : Poller) (c : Conn) → later ≡ true → (rest p c).0 ≡ returned)
      → (stopped || later) ≡ true
      → (r : Option (Result Text (Unit {0}))) (p : Poller) (c : Conn) → r ≢ none
      → (after_fetch rest stopped (r, p, c)).0 ≡ returned
  unfolding after_fetch
  after_fetch-returned rest stopped later k e none p c h = absurd (h refl)
  after_fetch-returned rest true later k e (some r) p c h = refl
  after_fetch-returned rest false later k e (some r) p c h = k p c e

  module _ (rounds : ℕ)
      (ends : (now : Time) (p : Poller) (c : Conn)
        → (fetch_once d sv domains remote rounds (λ k. now) p c).0 ≢ none) where
    -- Where every fetch ends, with an error or without, the loop returns when a turn takes the case of stop.
    cycles-returned :
        (base : ℤ) (ts : List Cycle) (now : Time) (p : Poller) (c : Conn)
        → any (λ t. t.stopped) ts ≡ true
        → (cycles rounds base ts now p c).0 ≡ returned
    unfolding cycles
    cycles-returned base [] now p c h = absurd (ground arith)
    cycles-returned base (t ∷ ts) now p c h =
        let (r, p', c') = fetch_once d sv domains remote rounds (λ k. now) p c in
        after_fetch-returned _ t.stopped _ (cycles-returned base ts _) h r p' c' (ends now p c)

    pub run_loop-returned :
        (interval : ℤ) (ts : List Cycle) (now : Time) (p : Poller) (c : Conn)
        → any (λ t. t.stopped) ts ≡ true
        → (run_loop rounds interval ts now p c).0 ≡ returned
    unfolding run_loop
    run_loop-returned interval ts now p c h = cycles-returned (base_of interval) ts now p c h

  module _ (Q : Conn → Type 0)
      (keeps : (gm : GraphMessage) (now received : Time) (c : Conn)
        → Q c
        → Q (store_graph_message d sv domains gm now received c).1) where
    after_fetch-Kept :
        (rest : Poller → Conn → LoopState × Poller × Conn)
        → ((p : Poller) (c : Conn) → Q c → Q (rest p c).2)
        → (stopped : Bool) (r : Option (Result Text (Unit {0}))) (p : Poller) (c : Conn) → Q c
        → Q (after_fetch rest stopped (r, p, c)).2
    unfolding after_fetch
    after_fetch-Kept rest k stopped none p c h = h
    after_fetch-Kept rest k true (some r) p c h = h
    after_fetch-Kept rest k false (some r) p c h = k p c h

    cycles-Kept :
        (rounds : ℕ) (base : ℤ) (ts : List Cycle) (now : Time) (p : Poller) (c : Conn)
        → Q c
        → Q (cycles rounds base ts now p c).2
    unfolding cycles
    cycles-Kept rounds base [] now p c h = h
    cycles-Kept rounds base (t ∷ ts) now p c h =
        let (r, p', c') = fetch_once d sv domains remote rounds (λ k. now) p c in
        after_fetch-Kept _ (cycles-Kept rounds base ts _) t.stopped r p' c'
          (fetch_once-Kept d sv domains Q keeps remote rounds (λ k. now) p c h)

    -- What storing a message keeps of the database, the loop keeps.
    pub run_loop-Kept :
        (rounds : ℕ) (interval : ℤ) (ts : List Cycle) (now : Time) (p : Poller) (c : Conn)
        → Q c
        → Q (run_loop rounds interval ts now p c).2
    unfolding run_loop
    run_loop-Kept rounds interval ts now p c h = cycles-Kept rounds (base_of interval) ts now p c h
