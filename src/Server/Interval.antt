-- ===== src/Server/Interval.antt =====
-- About runCleanup of main.go: the interval of its ticks.
use tempmail.Prelude.{
  sym, subst, if◌then◌else◌, ◌<◌, ℕ, zero, suc, ◌*◌, ◌^◌, ◌≤◌, ◌≡◌, ◌∙◌, ap, arith,
}
use tempmail.Prelude.Int.{leb_ℤ, ℤ, pos, negsuc, ◌*ℤ◌, ◌≤ℤ◌, ◌<ℤ◌, wrap64, wrap64_fits}
use tempmail.Server.{tick_interval}

times_minute : (n : ℕ) → pos n *ℤ pos 60000000000 ≡ pos (n * 60000000000)
unfolding ◌*ℤ◌
times_minute n = ground arith

minutes_fit : (n : ℕ) → n ≤ 153722867 → wrap64 (pos n *ℤ pos 60000000000) ≡ pos (n * 60000000000)
minutes_fit n h = ap wrap64 (times_minute n) ∙ wrap64_fits (n * 60000000000) (omega arith)

-- the nanoseconds of so many minutes, which the product does not reach by wrapping
abbrev pub Lasts : ℤ → ℕ → Type 0
Lasts interval minutes = (interval ≡ pos (minutes * (60 * 10 ^ 9))) × (pos 0 <ℤ interval)

interval_of :
    (every_min : ℤ) (n : ℕ)
    → (if leb_ℤ every_min (pos 0) then pos 30 else every_min) ≡ pos (suc n)
    → n < 153722867
    → Lasts (tick_interval every_min) (suc n)
unfolding tick_interval
interval_of every_min n e h =
    let value : tick_interval every_min ≡ pos (suc n * 60000000000) =
      ap (λ m. wrap64 (m *ℤ pos 60000000000)) e ∙ minutes_fit (suc n) (omega arith) in
    (value, subst (λ z. pos 0 <ℤ z) (sym value) (omega arith))

-- the minutes that are set, or 30 in place of what is not positive
abbrev pub minutes_of : ℤ → ℕ
minutes_of (pos zero) = 30
minutes_of (pos (suc n)) = suc n
minutes_of (negsuc n) = 30

-- For any number of minutes up to 153722867, negative ones and 0 included, the interval of the clean-up is the
-- nanoseconds of so many minutes, or of 30 minutes where the number is not positive: the product does not wrap,
-- and the interval is positive, as a ticker needs.
pub tick_interval-positive :
    (every_min : ℤ)
    → every_min ≤ℤ pos 153722867
    → Lasts (tick_interval every_min) (minutes_of every_min)
tick_interval-positive (pos zero) h = interval_of (pos zero) 29 (ground arith) (omega arith)
tick_interval-positive (pos (suc n)) h = interval_of (pos (suc n)) n (ground arith) (omega arith)
tick_interval-positive (negsuc n) h = interval_of (negsuc n) 29 (ground arith) (omega arith)
