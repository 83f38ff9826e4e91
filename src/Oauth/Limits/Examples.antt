-- ===== src/Oauth/Limits/Examples.antt =====
-- Tests, and the theorems about the limiter at concrete inputs.
use mcpmem.Prelude.{ℕ, ◌≡◌, refl, String, true, List, [], ◌∷◌, arith, text_ne, String-discrete}
use mcpmem.Oauth.Limits.{
  RateLimiter, check, roll, count, lookup, is_outside, store, retry_after_seconds,
}
use mcpmem.Oauth.Limits.Budget.{admitted, admitted-eq, run, retry_after-admitted}

-- Two requests a minute; "a" has sent one of them.
abbrev busy : RateLimiter
busy = record {
  limit = 2;
  window_us = 60_000_000;
  max_keys = 3;
  window = record { started_us = 1000; counts = ("a", 1) ∷ [] };
}

abbrev traffic : List (String × ℕ)
traffic = ("a", 2000) ∷ ("b", 2001) ∷ ("a", 2002) ∷ ("a", 2003) ∷ []

busy_peer : admitted "a" busy traffic ≡ 1
unfolding admitted check roll count lookup store is_outside String-discrete
busy_peer = refl

admitted-eq_example : admitted "a" busy traffic ≡ 1
unfolding lookup String-discrete
admitted-eq_example = admitted-eq busy "a" 1 traffic refl (omega arith) (omega arith)

retry_after-admitted_example :
    (check (run (check busy "a" 2000).0 (("b", 500) ∷ [])) "a" 60_002_000).1 ≡ true
unfolding retry_after_seconds
retry_after-admitted_example =
    retry_after-admitted busy "a" 2000 60_002_000 (("b", 500) ∷ []) (omega arith)
      (text_ne "b" "a" refl, tt) (omega arith)
