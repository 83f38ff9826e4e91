-- ===== src/Oauth/Limits/Budget.antt =====
-- How many requests of one peer a window admits.
use mcpmem.Prelude.{
  ℕ, suc, ◌+◌, ◌-◌, ◌*◌, ◌%◌, ◌⊎◌, ◌∙◌, ◌≤◌, ◌<◌, min, ◌≡◌, refl, ◌≢◌, String, Bool, true, false,
  none, some, List, [], ◌∷◌, length, All, arith, ◌==◌, text_eq, if◌then◌else◌, inl, inr,
  Option-cases, if_case, All-map, ltb, leb, String-discrete,
}
use mcpmem.Oauth.Limits.{RateLimiter, lookup, is_outside, roll, count, check, retry_after_seconds}
use mcpmem.Oauth.Limits.Counts.{lookup-store_self, lookup-store_ne}

-- How many of the requests are sent by `key`, and how many of those are admitted.
abbrev pub sent : String → List (String × ℕ) → ℕ
sent key [] = 0
sent key ((k, t) ∷ calls) = (if k == key then 1 else 0) + sent key calls

unfoldable pub admitted : String → RateLimiter → List (String × ℕ) → ℕ
admitted key r [] = 0
admitted key r ((k, t) ∷ calls) =
    (if k == key then (if (check r k t).1 then 1 else 0) else 0)
    + admitted key (check r k t).0 calls

abbrev pub InWindow : RateLimiter → ℕ → Type 0
InWindow r t = (r.window.started_us ≤ t) × (t < r.window.started_us + r.window_us)

roll_inside : (r : RateLimiter) (t : ℕ) → InWindow r t → roll r t ≡ r
unfolding roll is_outside
roll_inside r t h = ground arith

-- What one request of a counted peer does.
record Counted (r q : RateLimiter) (key : String) (n : ℕ) : Type 0 where
  limit : q.limit ≡ r.limit
  window_us : q.window_us ≡ r.window_us
  started : q.window.started_us ≡ r.window.started_us
  found : lookup key q.window.counts ≡ some n

count_self :
    (r : RateLimiter) (key : String) (n : ℕ)
    → lookup key r.window.counts ≡ some n
    → Counted r (count r key).0 key (if leb r.limit n then n else suc n)
      × ((count r key).1 ≡ (if leb r.limit n then false else true))
unfolding count
count_self r key n h = ground (arith, lookup-store_self key (suc n) n r.window.counts)

count_other :
    (r : RateLimiter) (key k : String) (n : ℕ)
    → k ≢ key
    → lookup key r.window.counts ≡ some n
    → Counted r (count r k).0 key n
unfolding count lookup
count_other r key k n ne h = elim (Option-cases (lookup k r.window.counts)) [
  | inl e ↦
      rw (e, count)
        (if_case (λ (p : RateLimiter × Bool). Counted r p.0 key n)
          (ltb (length r.window.counts) r.max_keys) (λ _. ground arith) (λ _. ground arith))
  | inr (m, e) ↦
      rw (e, count)
        (if_case (λ (p : RateLimiter × Bool). Counted r p.0 key n) (leb r.limit m)
          (λ _. ground arith)
          (λ _. ground (arith, lookup-store_ne k key (suc m) r.window.counts ne)))
]

check_inside : (r : RateLimiter) (key : String) (t : ℕ) → InWindow r t → check r key t ≡ count r key
unfolding check
check_inside r key t h = rw (roll_inside r t h)

Counted-InWindow :
    (r q : RateLimiter) (key : String) (n : ℕ) (calls : List (String × ℕ))
    → Counted r q key n
    → All (λ c. InWindow r c.1) calls
    → All (λ c. InWindow q c.1) calls
Counted-InWindow r q key n calls c a = All-map _ _ calls (λ x h. omega arith) a

-- While a window lasts, a counted peer is admitted exactly as often as its allowance has room for,
-- whatever the other peers send.
pub admitted-eq :
    (r : RateLimiter) (key : String) (n : ℕ) (calls : List (String × ℕ))
    → lookup key r.window.counts ≡ some n
    → n ≤ r.limit
    → All (λ c. InWindow r c.1) calls
    → admitted key r calls ≡ min (r.limit - n) (sent key calls)
unfolding admitted
admitted-eq r key n [] h le a = omega arith
admitted-eq r key n ((k, t) ∷ calls) h le (inside, a) =
    rw (check_inside r k t inside) (elim (String-discrete k key) [
      | yes same ↦
          let h' : lookup k r.window.counts ≡ some n = rw same h in
          let (c, answer) = count_self r k n h' in
          let m : ℕ = if leb r.limit n then n else suc n in
          let found : lookup key (count r k).0.window.counts ≡ some m = rw (← same) c.found in
          let rest =
            admitted-eq (count r k).0 key m calls found (ground arith)
              (Counted-InWindow r (count r k).0 k m calls c a) in
          ground (arith, rest)
      | no other ↦
          let c = count_other r key k n other h in
          let rest =
            admitted-eq (count r k).0 key n calls c.found (omega arith)
              (Counted-InWindow r (count r k).0 key n calls c a) in
          ground (arith, rest)
    ])

count_absent :
    (r : RateLimiter) (key : String) → lookup key r.window.counts ≡ none → (count r key).1 ≡ true
unfolding count
count_absent r key h = ground arith

abbrev opened : RateLimiter → String → ℕ → RateLimiter
opened r key t = record r { window = record { started_us = t; counts = (key, 1) ∷ [] } }

check_opens :
    (r : RateLimiter) (key : String) (t : ℕ)
    → is_outside r t ≡ true
    → 0 < r.max_keys
    → check r key t ≡ (opened r key t, true)
unfolding check roll count lookup
check_opens r key t out room = rw out (ground arith)

-- A request that opens a window starts a new allowance, of which it takes the first part: of the
-- requests of its peer within that window, as many are admitted as the limit says.
pub admitted-roll :
    (r : RateLimiter) (key : String) (t : ℕ) (calls : List (String × ℕ))
    → is_outside r t ≡ true
    → 0 < r.limit
    → 0 < r.max_keys
    → All (λ c. (t ≤ c.1) × (c.1 < t + r.window_us)) calls
    → admitted key r ((key, t) ∷ calls) ≡ min r.limit (sent key ((key, t) ∷ calls))
unfolding admitted lookup
admitted-roll r key t calls out pos room a =
    let found : lookup key ((key, 1) ∷ []) ≡ some 1 = ground arith in
    let rest = admitted-eq (opened r key t) key 1 calls found pos a in
    rw (check_opens r key t out room) (ground (arith, rest))

-- Every request of `calls`, in order.
unfoldable pub run : RateLimiter → List (String × ℕ) → RateLimiter
run r [] = r
run r ((k, t) ∷ calls) = run (check r k t).0 calls

-- The peer is not counted, or it is in a window that opened no later than `now`.
record Waits (r : RateLimiter) (key : String) (window_us now : ℕ) : Type 0 where
  length_us : r.window_us ≡ window_us
  position : (lookup key r.window.counts ≡ none) ⊎ (r.window.started_us ≤ now)

count-keeps_absent :
    (r : RateLimiter) (key k : String)
    → k ≢ key
    → lookup key r.window.counts ≡ none
    → lookup key (count r k).0.window.counts ≡ none
unfolding count lookup
count-keeps_absent r key k ne h = elim (Option-cases (lookup k r.window.counts)) [
  | inl e ↦
      rw (e, count)
        (if_case (λ (p : RateLimiter × Bool). lookup key p.0.window.counts ≡ none)
          (ltb (length r.window.counts) r.max_keys) (λ _. ground arith) (λ _. h))
  | inr (m, e) ↦
      rw (e, count)
        (if_case (λ (p : RateLimiter × Bool). lookup key p.0.window.counts ≡ none) (leb r.limit m)
          (λ _. h) (λ _. ground (arith, lookup-store_ne k key (suc m) r.window.counts ne)))
]

count-window :
    (r : RateLimiter) (k : String)
    → ((count r k).0.window.started_us ≡ r.window.started_us)
      × ((count r k).0.window_us ≡ r.window_us)
unfolding count
count-window r k = ground arith

roll-Waits :
    (r : RateLimiter) (key : String) (w now t : ℕ) → Waits r key w now → Waits (roll r t) key w now
unfolding roll lookup
roll-Waits r key w now t v =
    if_case (λ (q : RateLimiter). Waits q key w now) (is_outside r t)
      (λ _. record { length_us = v.length_us; position = inl refl }) (λ _. v)

count-Waits :
    (r : RateLimiter) (key k : String) (w now : ℕ)
    → k ≢ key
    → Waits r key w now
    → Waits (count r k).0 key w now
count-Waits r key k w now ne v = record {
  length_us = (count-window r k).1 ∙ v.length_us;
  position = elim v.position [
    | inl e ↦ inl (count-keeps_absent r key k ne e)
    | inr le ↦ inr (omega (arith, count-window r k))
  ];
}

run-Waits :
    (r : RateLimiter) (key : String) (w now : ℕ) (calls : List (String × ℕ))
    → All (λ c. c.0 ≢ key) calls
    → Waits r key w now
    → Waits (run r calls) key w now
unfolding run check
run-Waits r key w now [] a v = v
run-Waits r key w now ((k, t) ∷ calls) (ne, a) v =
    run-Waits (check r k t).0 key w now calls a
      (count-Waits (roll r t) key k w now ne (roll-Waits r key w now t v))

roll-started : (r : RateLimiter) (now : ℕ) → (roll r now).window.started_us ≤ now
unfolding roll is_outside
roll-started r now = ground arith

check-Waits :
    (r : RateLimiter) (key : String) (now : ℕ) → Waits (check r key now).0 key r.window_us now
unfolding check roll
check-Waits r key now = record {
  length_us = (count-window (roll r now) key).1 ∙ ground arith;
  position = inr (omega (arith, count-window (roll r now) key, roll-started r now));
}

Waits-check :
    (r : RateLimiter) (key : String) (w now t : ℕ)
    → now + w ≤ t
    → Waits r key w now
    → (check r key t).1 ≡ true
unfolding check roll is_outside lookup
Waits-check r key w now t le v = count_absent (roll r t) key (rolled v.position)
  where
    rolled :
        (lookup key r.window.counts ≡ none) ⊎ (r.window.started_us ≤ now)
        → lookup key (roll r t).window.counts ≡ none
    rolled (inl e) =
        if_case (λ (q : RateLimiter). lookup key q.window.counts ≡ none) (is_outside r t)
          (λ _. refl) (λ _. e)
    rolled (inr h) =
        if_case (λ (q : RateLimiter). lookup key q.window.counts ≡ none) (is_outside r t)
          (λ _. refl) (λ inside. let late : ⊥ = ground (arith, v.length_us) in absurd late)

-- A peer that waits out `Retry-After` after a request is admitted, whatever the other peers sent in
-- between and however the clock moved: the window length is a whole number of seconds.
pub retry_after-admitted :
    (r : RateLimiter) (key : String) (now t : ℕ) (calls : List (String × ℕ))
    → r.window_us % 1_000_000 ≡ 0
    → All (λ c. c.0 ≢ key) calls
    → now + retry_after_seconds r * 1_000_000 ≤ t
    → (check (run (check r key now).0 calls) key t).1 ≡ true
unfolding retry_after_seconds
retry_after-admitted r key now t calls whole a le =
    Waits-check _ key r.window_us now t (omega arith)
      (run-Waits _ key r.window_us now calls a (check-Waits r key now))
