-- ===== src/Ingest/Exclusion.antt =====
-- About ingest/ondemand.go: the calls, their outcomes, and Close, in any interleaving.
use native.Mathlib.Decide.{ℕ_discrete}
use tempmail.Prelude.{
  Bool, ap, ◌∙◌, Bool-cases, if_elim, ℕ, ◌≤◌, ◌<◌, ◌≡◌, refl, true, false, Option, none, some,
  arith, ◌⊎◌, inl, inr, ==_iff, ◌==◌, if◌then◌else◌,
}
use tempmail.Prelude.Int.{ℤ}
use tempmail.Text.{Text}
use tempmail.Models.{Time}
use tempmail.Ingest.{
  wait, Err, OnDemand, start, Entry, is_recent, start_call, join_or_start, enter, finish, close,
  await, ◌⟶◌, sync, done, shut, Reach, here, next,
}

-- the number of fetches that a state of `inflight` stands for
abbrev pub count : Option ℕ → ℕ
count none = 0
count (some n) = 1

-- One fetch runs if a call is in flight, and none otherwise. The calls that have begun and are not
-- in flight have an outcome; the others have none. The fetch that runs after Close is cancelled.
pub record Inv (o : OnDemand) : Type 0 where
  pub one : o.running ≡ count o.inflight
  pub begun : (n : ℕ) → o.inflight ≡ some n → n < o.next_call
  pub pending : (n : ℕ) → o.inflight ≡ some n → o.outcome n ≡ none
  pub fresh : (n : ℕ) → o.next_call ≤ n → o.outcome n ≡ none
  pub finished :
      (n : ℕ) → n < o.next_call → (o.inflight ≡ some n) ⊎ ((e : Err) × (o.outcome n ≡ some e))
  pub context : (n : ℕ) → o.inflight ≡ some n → o.fetch_ctx ≡ true
  pub stopped : o.closed ≡ true → o.cancelled ≡ o.fetch_ctx

pub start-Inv : (interval : ℤ) → Inv (start interval)
start-Inv interval = record {
  one = refl;
  begun = λ n h. ground arith;
  pending = λ n h. ground arith;
  fresh = λ n h. refl;
  finished = λ n h. absurd (omega arith);
  context = λ n h. ground arith;
  stopped = λ h. ground arith;
}

start_call-Inv : (o : OnDemand) → o.inflight ≡ none → o.closed ≡ false → Inv o → Inv (start_call o)
unfolding start_call
start_call-Inv o idle live h = record {
  one = ground (arith, h.one);
  begun = λ n k. ground arith;
  pending = λ n k. ground (arith, h.fresh n);
  fresh = λ n k. h.fresh n (omega arith);
  finished = λ n k. elim (ℕ_discrete o.next_call n) [
    | yes e ↦ inl (ap some e)
    | no ne ↦ elim (h.finished n (omega arith)) [ inl q ↦ absurd (ground arith) | inr r ↦ inr r ]
  ];
  context = λ n k. refl;
  stopped = λ k. ground arith;
}

join_or_start-Inv :
    (now : Time) (o : OnDemand) (i : Option ℕ)
    → o.inflight ≡ i
    → o.closed ≡ false
    → Inv o
    → Inv (join_or_start now o i).1
unfolding join_or_start
join_or_start-Inv now o (some n) e live h = h
join_or_start-Inv now o none e live h = elim (Bool-cases (is_recent now o)) [
  | inl r ↦ rw r h
  | inr r ↦ rw r (start_call-Inv o e live h)
]

enter-Inv : (e : Err) (now : Time) (o : OnDemand) → Inv o → Inv (enter e now o).1
unfolding enter
enter-Inv (some e) now o h = h
enter-Inv none now o h =
    if_elim (λ (r : Entry × OnDemand). Inv r.1) o.closed (λ c. h)
      (λ c. join_or_start-Inv now o o.inflight refl c h)

finish-Inv :
    (n : ℕ) (e : Err) (now : Time) (o : OnDemand)
    → o.inflight ≡ some n
    → Inv o
    → Inv (finish n e now o)
unfolding finish
finish-Inv n e now o q h = record {
  one = ground (arith, h.one);
  begun = λ m k. ground arith;
  pending = λ m k. ground arith;
  fresh = λ m k. ground (arith, h.fresh m, h.begun n, ==_iff m n);
  finished = λ m k. inr (elim (h.finished m k) [
    | inl r ↦ (e, ground (arith, ==_iff m n))
    | inr (x, r) ↦ ((if m == n then e else x), ground arith)
  ]);
  context = λ m k. ground arith;
  stopped = h.stopped;
}

close-Inv : (o : OnDemand) → Inv o → Inv (close o)
unfolding close
close-Inv o h =
    if_elim Inv o.closed (λ c. h)
      (λ c. record {
        one = h.one;
        begun = h.begun;
        pending = h.pending;
        fresh = h.fresh;
        finished = h.finished;
        context = h.context;
        stopped = λ k. refl;
      })

pub ⟶-Inv : {s o : OnDemand} → s ⟶ o → Inv s → Inv o
⟶-Inv (sync e now o) h = enter-Inv e now o h
⟶-Inv (done n e now o q) h = finish-Inv n e now o q h
⟶-Inv (shut o) h = close-Inv o h

Inv-Reach : {s o : OnDemand} → Inv s → Reach s o → Inv o
Inv-Reach h here = h
Inv-Reach h (next r step) = ⟶-Inv step (Inv-Reach h r)

-- However the requests, the ends of fetches and Close are interleaved, one fetch runs if a call is
-- in flight and none otherwise, every call that began and is not in flight has its outcome, and a
-- fetch that runs after Close is cancelled.
pub Reach-Inv : (interval : ℤ) {o : OnDemand} → Reach (start interval) o → Inv o
Reach-Inv interval r = Inv-Reach (start-Inv interval) r

enter-outcome :
    (x : Err) (now : Time) (o : OnDemand) (n : ℕ) → (enter x now o).1.outcome n ≡ o.outcome n
unfolding enter
enter-outcome x now o n = ground arith

finish-outcome :
    (m : ℕ) (x : Err) (now : Time) (o : OnDemand) (n : ℕ) (e : Err)
    → o.outcome m ≡ none
    → o.outcome n ≡ some e
    → (finish m x now o).outcome n ≡ some e
unfolding finish
finish-outcome m x now o n e p k = ground (arith, ==_iff n m)

close-outcome : (o : OnDemand) (n : ℕ) → (close o).outcome n ≡ o.outcome n
unfolding close
close-outcome o n = ground arith

⟶-outcome :
    {s o : OnDemand} (n : ℕ) (e : Err) → s ⟶ o → Inv s → s.outcome n ≡ some e → o.outcome n ≡ some e
⟶-outcome n e (sync x now o) h k = enter-outcome x now o n ∙ k
⟶-outcome n e (done m x now o q) h k = finish-outcome m x now o n e (h.pending m q) k
⟶-outcome n e (shut o) h k = close-outcome o n ∙ k

outcome-Reach :
    {s o : OnDemand} (n : ℕ) (e : Err)
    → Inv s
    → s.outcome n ≡ some e
    → Reach s o
    → o.outcome n ≡ some e
outcome-Reach n e h k here = k
outcome-Reach n e h k (next r step) = ⟶-outcome n e step (Inv-Reach h r) (outcome-Reach n e h k r)

-- A caller that wakes with this answer: the outcome of its call, or the error of its own context, which has ended.
abbrev pub IsAnswer : Err → Err → Option Err → Type 0
IsAnswer e ctx_err answer =
    (answer ≡ some e) ⊎ ((x : Text) × (ctx_err ≡ some x) × (answer ≡ some (some x)))

await-IsAnswer :
    (picks_call : Bool) (n : ℕ) (e ctx_err : Err) (o : OnDemand)
    → o.outcome n ≡ some e
    → IsAnswer e ctx_err (await picks_call n ctx_err o)
unfolding await
await-IsAnswer picks_call n e none o k = inl (rw (k, await) refl)
await-IsAnswer true n e (some x) o k = inl (rw (k, await) refl)
await-IsAnswer false n e (some x) o k = inr (x, refl, rw (k, await) refl)

-- Of the states of a run, an outcome that is known in one is the same in every later one: whoever waits for the
-- call, and whenever they wake, gets this answer, or the error of their own context if it has ended.
pub Reach-outcome :
    (interval : ℤ) {s o : OnDemand} (picks_call : Bool) (n : ℕ) (e ctx_err : Err)
    → Reach (start interval) s
    → Reach s o
    → s.outcome n ≡ some e
    → IsAnswer e ctx_err (await picks_call n ctx_err o)
Reach-outcome interval {s} {o} picks_call n e ctx_err r later k =
    await-IsAnswer picks_call n e ctx_err o (outcome-Reach n e (Reach-Inv interval r) k later)

-- what Close brings about for good: the flag, and the number of calls
abbrev Quiet : ℕ → OnDemand → Type 0
Quiet calls o = (o.closed ≡ true) × (o.next_call ≡ calls)

⟶-Quiet : {s o : OnDemand} (calls : ℕ) → s ⟶ o → Quiet calls s → Quiet calls o
⟶-Quiet calls (sync (some e) now o) (c, k) = unfold enter in (c, k)
⟶-Quiet calls (sync none now o) (c, k) = unfold enter in ground arith
⟶-Quiet calls (done n e now o q) (c, k) = unfold finish in (c, k)
⟶-Quiet calls (shut o) (c, k) = unfold close in ground arith

-- After Close no call begins: the service is closed for good, and the number of calls stays.
pub Reach-close :
    (s : OnDemand) {o : OnDemand}
    → Reach (close s) o
    → (o.closed ≡ true) × (o.next_call ≡ s.next_call)
Reach-close s here = unfold close in ground arith
Reach-close s (next r step) = ⟶-Quiet s.next_call step (Reach-close s r)

-- what an entry of SyncContext does: nothing, or it begins a call where that is allowed
abbrev pub Began : Err → Time → OnDemand → Entry × OnDemand → Type 0
Began e now o r =
    (r.1 ≡ o)
    ⊎ ((e ≡ none)
        × (o.closed ≡ false)
        × (o.inflight ≡ none)
        × (is_recent now o ≡ false)
        × (r.0 ≡ wait o.next_call)
        × (r.1.inflight ≡ some o.next_call))

join_or_start_lem :
    (now : Time) (o : OnDemand) (i : Option ℕ)
    → o.inflight ≡ i
    → o.closed ≡ false
    → Began none now o (join_or_start now o i)
unfolding join_or_start
join_or_start_lem now o (some n) e c = inl refl
join_or_start_lem now o none e c =
    if_elim (Began none now o) (is_recent now o) (λ r. inl refl)
      (λ r. inr (refl, c, e, r, refl, refl))

-- A call begins only if none is in flight, the service is not closed, the caller's context has not
-- ended, and the last fetch ended longer ago than the interval; otherwise nothing changes.
pub enter_lem : (e : Err) (now : Time) (o : OnDemand) → Began e now o (enter e now o)
unfolding enter
enter_lem (some e) now o = inl refl
enter_lem none now o =
    if_elim (Began none now o) o.closed (λ c. inl refl) (λ c. join_or_start_lem now o _ refl c)
