-- ===== src/Imap/Idle/Jams.antt =====
-- About idleWait of imap/poller.go: the updates that it does not read while it waits for the end of IDLE.
use tempmail.Prelude.{ℕ, zero, suc, ◌+◌, ◌-◌, ◌<◌, ◌≤◌, ◌≡◌, ◌≢◌, refl, none, arith}
use tempmail.Imap.Watch.{IdleEnd}
use tempmail.Imap.Idle.{
  capacity, Cause, by_timer, selecting, closing, left, IdleWait, waiting, ◌↝◌, arrive, deliver,
  finish, close_stop, see_stop, see_timer, see_update, see_end, hear, drain, drained, Reach, here,
  next, Reach-trans,
}
use tempmail.Imap.Idle.Ends.{Reach-Inv}

-- idleWait awaits the end of IDLE, the channel is full, and the reader has one more update for it.
record Jammed (s : IdleWait) : Type 0 where
  cause : Cause
  closed : s.place ≡ closing cause
  full : s.buffered ≡ capacity
  blocked : 0 < s.unread
  unended : s.ended ≡ none

↝-Jammed : {s t : IdleWait} → s ↝ t → Jammed s → Jammed t
↝-Jammed arrive j = record {
  cause = j.cause;
  closed = j.closed;
  full = j.full;
  blocked = omega arith;
  unended = j.unended;
}
↝-Jammed (deliver p q) j = absurd (omega (arith, j.full))
↝-Jammed (finish e p q) j = absurd (omega (arith, j.blocked))
↝-Jammed close_stop j = record {
  cause = j.cause;
  closed = j.closed;
  full = j.full;
  blocked = j.blocked;
  unended = j.unended;
}
↝-Jammed (see_stop p q) j = absurd (cc (p, j.closed))
↝-Jammed (see_timer p) j = absurd (cc (p, j.closed))
↝-Jammed (see_update p q) j = absurd (cc (p, j.closed))
↝-Jammed (see_end e p q) j = absurd (cc (p, j.closed))
↝-Jammed (hear c e p q) j = absurd (cc (q, j.unended))
↝-Jammed (drain e p q) j = absurd (cc (p, j.closed))
↝-Jammed (drained e p q) j = absurd (cc (p, j.closed))

Jammed-Reach : {s t : IdleWait} → Jammed s → Reach s t → Jammed t
Jammed-Reach j here = j
Jammed-Reach j (next r step) = ↝-Jammed step (Jammed-Reach j r)

-- No run from `s` leads to a return of idleWait.
abbrev pub NeverReturns : IdleWait → Type 0
NeverReturns s = (t : IdleWait) → Reach s t → (r : IdleEnd) → t.place ≢ left r

Jammed-NeverReturns : (s : IdleWait) → Jammed s → NeverReturns s
Jammed-NeverReturns s j t reach r e = let k = Jammed-Reach j reach in absurd (cc (e, k.closed))

-- a run from `s` to a state from which idleWait never returns
abbrev pub Jamming : IdleWait → Type 0
Jamming s = (t : IdleWait) × Reach s t × NeverReturns t

after : {s t : IdleWait} → s ↝ t → Jamming t → Jamming s
after step (t, reach, never) = (t, Reach-trans (next here step) reach, never)

-- the reader fills the channel
filled :
    (n : ℕ) (s : IdleWait)
    → s.place ≡ closing by_timer
    → s.ended ≡ none
    → s.buffered + n ≡ capacity
    → n < s.unread
    → Jamming s
filled zero s p e k more = (
  s,
  here,
  Jammed-NeverReturns s (record {
    cause = by_timer;
    closed = p;
    full = omega arith;
    blocked = omega arith;
    unended = e;
  }),
)
filled (suc n) s p e k more = after (deliver (omega arith) (omega arith)) (
    filled n (record s { unread = s.unread - 1; buffered = suc s.buffered }) p e (omega arith)
      (omega arith))

-- more updates come than the channel has room for
flooded :
    (n : ℕ) (s : IdleWait)
    → s.place ≡ closing by_timer
    → s.ended ≡ none
    → s.buffered ≤ capacity
    → capacity < s.unread + n
    → Jamming s
flooded zero s p e k more = filled (capacity - s.buffered) s p e (omega arith) (omega arith)
flooded (suc n) s p e k more =
    after arrive
      (flooded n (record s { unread = suc s.unread; came = suc s.came }) p e k (omega arith))

-- From every state that is reached in which idleWait waits at its select and IDLE has not ended, a run leads
-- to a state from which it never returns, also if the channel stop is closed then: enough updates come while it
-- waits for the end of IDLE, which the reader of the client cannot report before they are read.
pub Reach-Jamming :
    {s : IdleWait} → Reach waiting s → s.place ≡ selecting → s.ended ≡ none → Jamming s
Reach-Jamming {s} reach p e = after (see_timer p) (
    flooded 9 (record s { place = closing by_timer }) refl e (Reach-Inv reach).bounded
      (omega arith))
