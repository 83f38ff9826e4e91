-- ===== src/Oauth/Limits.antt =====
-- crates/mcpmem-oauth/src/limits.rs: the fixed-window request counter of the anonymous endpoints.
-- Clocks are microseconds since 1970 and never negative. The lock makes each `check` one step.
pub mod Counts
pub mod Budget
mod Examples
use mcpmem.Prelude.{
  ℕ, suc, ◌-◌, ◌*◌, ◌/◌, String, Bool, true, false, ◌||◌, Option, none, some, List, [], ◌∷◌, length,
  ltb, leb, ◌==◌, text_eq, if◌then◌else◌,
}

abbrev pub window_us : ℕ
window_us = 60 * 1_000_000

abbrev pub register_per_window : ℕ
register_per_window = 20

abbrev pub login_per_window : ℕ
login_per_window = 60

abbrev pub max_keys : ℕ
max_keys = 8192

pub record Window : Type 0 where
  pub started_us : ℕ
  pub counts : List (String × ℕ)

pub record RateLimiter : Type 0 where
  pub limit : ℕ
  pub window_us : ℕ
  pub max_keys : ℕ
  pub window : Window

-- The private constructor: the first request opens a window, whatever the clock says.
pub new : ℕ → ℕ → ℕ → RateLimiter
new limit window_us max_keys = record {
  limit = limit;
  window_us = window_us;
  max_keys = max_keys;
  window = record { started_us = 0; counts = [] };
}

pub per_window : ℕ → RateLimiter
unfolding new
per_window limit = new limit window_us max_keys

pub retry_after_seconds : RateLimiter → ℕ
retry_after_seconds r = r.window_us / 1_000_000

-- `HashMap::get` and the write through `get_mut`.
pub lookup : String → List (String × ℕ) → Option ℕ
lookup key [] = none
lookup key ((k, n) ∷ counts) = let rest = lookup key counts in if k == key then some n else rest

pub store : String → ℕ → List (String × ℕ) → List (String × ℕ)
store key n [] = []
store key n ((k, m) ∷ counts) = (if k == key then (k, n) else (k, m)) ∷ store key n counts

-- `!(0..window_us).contains(&(now_us - started_us))`, where the difference is signed.
pub is_outside : RateLimiter → ℕ → Bool
is_outside r now_us =
    ltb now_us r.window.started_us || leb r.window_us (now_us - r.window.started_us)

pub roll : RateLimiter → ℕ → RateLimiter
unfolding is_outside
roll r now_us =
    if is_outside r now_us
    then record r { window = record { started_us = now_us; counts = [] } }
    else r

abbrev set_counts : RateLimiter → List (String × ℕ) → RateLimiter
set_counts r counts = record r {
  window = record { started_us = r.window.started_us; counts = counts };
}

-- The rest of `check`, after the window was rolled.
pub count : RateLimiter → String → RateLimiter × Bool
unfolding lookup store
count r key = elim (lookup key r.window.counts) [
  | none ↦
      if ltb (length r.window.counts) r.max_keys
      then (set_counts r ((key, 1) ∷ r.window.counts), true)
      else (r, true)
  | some n ↦
      if leb r.limit n then (r, false) else (set_counts r (store key (suc n) r.window.counts), true)
]

pub check : RateLimiter → String → ℕ → RateLimiter × Bool
unfolding roll count
check r key now_us = count (roll r now_us) key

-- One limiter for each anonymous endpoint.
pub record Limits : Type 0 where
  pub register : RateLimiter
  pub authorize : RateLimiter
  pub callback : RateLimiter
  pub consent : RateLimiter
  pub credential : RateLimiter

pub new_limits : Limits
unfolding per_window
new_limits = record {
  register = per_window register_per_window;
  authorize = per_window login_per_window;
  callback = per_window login_per_window;
  consent = per_window login_per_window;
  credential = per_window login_per_window;
}
