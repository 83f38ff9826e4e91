-- ===== src/Oauth/Limits/Counts.antt =====
-- Laws of the counter map, and the invariant of a limiter.
use mcpmem.Prelude.{
  ℕ, suc, ◌≤◌, ◌<◌, ◌≡◌, refl, ◌≢◌, String, Bool, some, List, [], ◌∷◌, length, All, arith, inl, inr,
  Option-cases, if_case, ltb, leb,
}
use mcpmem.Oauth.Limits.{RateLimiter, per_window, lookup, store, is_outside, roll, count, check}

pub length-store : (k : String) (n : ℕ) (cs : List (String × ℕ)) → length (store k n cs) ≡ length cs
unfolding store
length-store k n [] = refl
length-store k n (c ∷ cs) = ground (arith, length-store k n cs)

-- A write reaches its key alone.
pub lookup-store_self :
    (k : String) (n m : ℕ) (cs : List (String × ℕ))
    → lookup k cs ≡ some m
    → lookup k (store k n cs) ≡ some n
unfolding lookup store
lookup-store_self k n m [] h = cc
lookup-store_self k n m (c ∷ cs) h = ground (arith, lookup-store_self k n m cs)

pub lookup-store_ne :
    (k j : String) (n : ℕ) (cs : List (String × ℕ)) → k ≢ j → lookup j (store k n cs) ≡ lookup j cs
unfolding lookup store
lookup-store_ne k j n [] h = refl
lookup-store_ne k j n (c ∷ cs) h = ground (arith, lookup-store_ne k j n cs)

-- The counters stay within the allowance, and the peers within the bound on memory.
pub record IsValid (r : RateLimiter) : Type 0 where
  pub within : All (λ c. c.1 ≤ r.limit) r.window.counts
  pub bounded : length r.window.counts ≤ r.max_keys

All-store :
    (l : ℕ) (k : String) (n : ℕ) (cs : List (String × ℕ))
    → n ≤ l
    → All (λ c. c.1 ≤ l) cs
    → All (λ c. c.1 ≤ l) (store k n cs)
unfolding store
All-store l k n [] h a = tt
All-store l k n (c ∷ cs) h a = ground (arith, All-store l k n cs h a.1)

count-IsValid : (r : RateLimiter) (k : String) → 0 < r.limit → IsValid r → IsValid (count r k).0
unfolding count
count-IsValid r k pos v = elim (Option-cases (lookup k r.window.counts)) [
  | inl e ↦
      rw (e, count)
        (if_case (λ (p : RateLimiter × Bool). IsValid p.0) (ltb (length r.window.counts) r.max_keys)
          (λ room. record { within = (omega arith, v.within); bounded = ground arith }) (λ _. v))
  | inr (n, e) ↦
      rw (e, count)
        (if_case (λ (p : RateLimiter × Bool). IsValid p.0) (leb r.limit n) (λ _. v)
          (λ low. record {
            within = All-store r.limit k (suc n) r.window.counts (ground arith) v.within;
            bounded = omega (arith, v.bounded, length-store k (suc n) r.window.counts);
          }))
]

roll-limit : (r : RateLimiter) (now : ℕ) → 0 < r.limit → 0 < (roll r now).limit
unfolding roll
roll-limit r now h = ground arith

roll-IsValid : (r : RateLimiter) (now : ℕ) → IsValid r → IsValid (roll r now)
unfolding roll
roll-IsValid r now v =
    if_case IsValid (is_outside r now) (λ _. record { within = tt; bounded = omega arith }) (λ _. v)

pub per_window-IsValid : (limit : ℕ) → IsValid (per_window limit)
unfolding per_window
per_window-IsValid limit = record { within = tt; bounded = omega arith }

-- From the state that `per_window` makes, and after any request, no counter passes the limit and
-- no more than `max_keys` peers are counted.
pub check-IsValid :
    (r : RateLimiter) (k : String) (now : ℕ) → 0 < r.limit → IsValid r → IsValid (check r k now).0
unfolding check
check-IsValid r k now pos v =
    count-IsValid (roll r now) k (roll-limit r now pos) (roll-IsValid r now v)
