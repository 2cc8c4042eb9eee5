-- ===== src/Imap/Idle/Ends.antt =====
-- About idleWait of imap/poller.go: what it returns.
use tempmail.Prelude.{
  ◌+◌, ◌≤◌, ◌≡◌, ◌⊎◌, refl, inl, inr, subst, Bool, true, Option, none, some, arith,
}
use tempmail.Text.{Text}
use tempmail.Imap.Watch.{IdleEnd, idle_stopped, idle_wait, done}
use tempmail.Imap.Idle.{
  capacity, Cause, by_stop, by_timer, by_update, Place, selecting, closing, draining, left,
  IdleWait, after_end, waiting, ◌↝◌, arrive, deliver, finish, close_stop, see_stop, see_timer,
  see_update, see_end, hear, drain, drained, Reach, here, next,
}

-- A value that is returned: IDLE has ended, and the value is its error, or errStopped if stop is closed.
abbrev pub Returns : IdleEnd → Option (Option Text) → Bool → Type 0
Returns r ended stopped =
    (e : Option Text) × (ended ≡ some e)
    × ((r ≡ idle_wait (done e)) ⊎ ((r ≡ idle_stopped) × (stopped ≡ true)))

-- What the place of idleWait says of the channels.
abbrev pub Says : Place → Option (Option Text) → Bool → Type 0
Says selecting ended stopped = Unit {0}
Says (closing by_stop) ended stopped = stopped ≡ true
Says (closing by_timer) ended stopped = Unit {0}
Says (closing by_update) ended stopped = Unit {0}
Says (draining e) ended stopped = ended ≡ some e
Says (left r) ended stopped = Returns r ended stopped

pub record Inv (s : IdleWait) : Type 0 where
  pub counted : s.buffered + s.unread ≤ s.came
  pub bounded : s.buffered ≤ capacity
  pub says : Says s.place s.ended s.stopped

Says-finish :
    (p : Place) (e : Option Text) (ended : Option (Option Text)) (b : Bool)
    → ended ≡ none
    → Says p ended b
    → Says p (some e) b
Says-finish selecting e ended b k h = tt
Says-finish (closing by_stop) e ended b k h = h
Says-finish (closing by_timer) e ended b k h = tt
Says-finish (closing by_update) e ended b k h = tt
Says-finish (draining x) e ended b k h = cc
Says-finish (left r) e ended b k (x, q, h) = cc

Says-stop :
    (p : Place) (ended : Option (Option Text)) (b : Bool) → Says p ended b → Says p ended true
Says-stop selecting ended b h = tt
Says-stop (closing by_stop) ended b h = refl
Says-stop (closing by_timer) ended b h = tt
Says-stop (closing by_update) ended b h = tt
Says-stop (draining x) ended b h = h
Says-stop (left r) ended b (e, q, inl k) = (e, q, inl k)
Says-stop (left r) ended b (e, q, inr (k, _)) = (e, q, inr (k, refl))

Says-hear :
    (c : Cause) (e : Option Text) (ended : Option (Option Text)) (b : Bool)
    → ended ≡ some e
    → Says (closing c) ended b
    → Says (after_end c e) ended b
unfolding after_end idle_wait
Says-hear by_stop e ended b k h = (e, k, inr (refl, h))
Says-hear by_timer e ended b k h = (e, k, inl refl)
Says-hear by_update e ended b k h = k

places :
    (s : IdleWait) (p : Place)
    → Says s.place s.ended s.stopped
    → s.place ≡ p
    → Says p s.ended s.stopped
places s p h e = subst (λ q. Says q s.ended s.stopped) e h

↝-Says : {s t : IdleWait} → s ↝ t → Says s.place s.ended s.stopped → Says t.place t.ended t.stopped
unfolding idle_wait
↝-Says arrive h = h
↝-Says (deliver p q) h = h
↝-Says {s} (finish e p q) h = Says-finish s.place e s.ended s.stopped q h
↝-Says {s} close_stop h = Says-stop s.place s.ended s.stopped h
↝-Says (see_stop p q) h = q
↝-Says (see_timer p) h = tt
↝-Says (see_update p q) h = tt
↝-Says (see_end e p q) h = (e, q, inl refl)
↝-Says {s} (hear c e p q) h = Says-hear c e s.ended s.stopped q (places s (closing c) h p)
↝-Says (drain e p q) h = h
↝-Says {s} (drained e p q) h = (e, places s (draining e) h p, inl refl)

↝-counted :
    {s t : IdleWait} → s ↝ t → s.buffered + s.unread ≤ s.came → t.buffered + t.unread ≤ t.came
↝-counted arrive h = omega arith
↝-counted (deliver p q) h = omega arith
↝-counted (see_update p q) h = omega arith
↝-counted (drain e p q) h = omega arith
↝-counted (finish e p q) h = h
↝-counted close_stop h = h
↝-counted (see_stop p q) h = h
↝-counted (see_timer p) h = h
↝-counted (see_end e p q) h = h
↝-counted (hear c e p q) h = h
↝-counted (drained e p q) h = h

↝-bounded : {s t : IdleWait} → s ↝ t → s.buffered ≤ capacity → t.buffered ≤ capacity
↝-bounded arrive h = h
↝-bounded (deliver p q) h = omega arith
↝-bounded (see_update p q) h = omega arith
↝-bounded (drain e p q) h = omega arith
↝-bounded (finish e p q) h = h
↝-bounded close_stop h = h
↝-bounded (see_stop p q) h = h
↝-bounded (see_timer p) h = h
↝-bounded (see_end e p q) h = h
↝-bounded (hear c e p q) h = h
↝-bounded (drained e p q) h = h

pub Reach-Inv : {s : IdleWait} → Reach waiting s → Inv s
Reach-Inv here = record { counted = omega arith; bounded = omega arith; says = tt }
Reach-Inv (next r step) =
    let i = Reach-Inv r in
    record {
      counted = ↝-counted step i.counted;
      bounded = ↝-bounded step i.bounded;
      says = ↝-Says step i.says;
    }

-- When idleWait has returned, IDLE has ended, and what it returned is the error with which IDLE ended, or
-- errStopped, and then the channel stop is closed.
pub Reach-Returns :
    {s : IdleWait} (r : IdleEnd) → Reach waiting s → s.place ≡ left r → Returns r s.ended s.stopped
Reach-Returns {s} r reach e = places s (left r) (Reach-Inv reach).says e
