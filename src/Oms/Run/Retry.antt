-- ===== src/Oms/Run/Retry.antt =====
-- The retries of submitWithRetry: how many attempts it makes, and what it returns after them.
use signalix.Prelude.{
  ℕ, zero, suc, ◌+◌, ◌≤◌, ◌<◌, ◌≡◌, refl, ap, ◌∙◌, true, false, Option, none, some, String, ok, err,
  arith,
}
use signalix.Prelude.Int.{pos}
use signalix.Numbers.{Numbers}
use signalix.Models.{Order}
use signalix.Oms.{Failure, Oms, Config, Env, retries_exhausted, has_executor_for}
use signalix.Oms.Validate.{validate_order_for_place}
use signalix.Oms.Submit.{
  handle_submit_success, fail, count_retry, interrupted, answered, attempt_loop, rounds,
  submit_valid, submit_with_retry,
}

-- The attempt `m`, counted from 0, is the first that Place accepts, with the id `x`, and the context
-- ends none of the attempts up to it.
pub record Places (cfg : Config) (env : Env) (o : Order) (m : ℕ) (x : String) : Type 0 where
  pub going : (i : ℕ) → i ≤ m → interrupted cfg env i ≡ false
  pub failing : (i : ℕ) → i < m → (e : Failure) × (env.place i o ≡ err e)
  pub placed : env.place m o ≡ ok x

-- Every one of the first `n` attempts is made and refused by Place, the last one with `e`.
pub record Refuses (cfg : Config) (env : Env) (o : Order) (n : ℕ) (e : Failure) : Type 0 where
  pub going : (i : ℕ) → i ≤ n → interrupted cfg env i ≡ false
  pub failing : (i : ℕ) → i < n → (f : Failure) × (env.place i o ≡ err f)
  pub last : env.place n o ≡ err e

abbrev pub add_retries : ℕ → Oms → Oms
add_retries n s = record s { stats = record s.stats { retries = s.stats.retries + n } }

module _ (cfg : Config) (env : Env) (o : Order) where
  -- The retries counted from the attempt `k` on.
  abbrev counted_from : ℕ → ℕ → Oms → Oms
  counted_from zero k s = count_retry cfg env k s
  counted_from (suc d) k s = counted_from d (suc k) (count_retry cfg env k s)

  counted_from-suc : (d k : ℕ) (s : Oms) → counted_from d (suc k) s ≡ add_retries (suc d) s
  counted_from-suc zero k s = refl
  counted_from-suc (suc d) k s =
      counted_from-suc d (suc k) (count_retry cfg env (suc k) s)
      ∙ ap (λ n. record s { stats = record s.stats { retries = n } }) (omega arith)

  counted_from-zero : (d : ℕ) (s : Oms) → counted_from d 0 s ≡ add_retries d s
  counted_from-zero zero s =
      ap (λ n. record s { stats = record s.stats { retries = n } }) (omega arith)
  counted_from-zero (suc d) s = counted_from-suc d 0 s

  attempt_loop-Places :
      (d n k m : ℕ) (x : String) (last : Option Failure) (s : Oms)
      → d < n
      → k + d ≡ m
      → Places cfg env o m x
      → attempt_loop cfg env n k last o s
        ≡ (handle_submit_success cfg env o x (counted_from d k s), none)
  unfolding attempt_loop answered
  attempt_loop-Places d zero k m x last s lt h p = absurd (omega (arith, lt))
  attempt_loop-Places zero (suc n) k m x last s lt h p =
      let here : env.place k o ≡ ok x =
        ap (λ i. env.place i o) {x = k} (omega (arith, h)) ∙ p.placed in
      rw (p.going k (omega (arith, h)), here, answered) refl
  attempt_loop-Places (suc d) (suc n) k m x last s lt h p =
      let f = p.failing k (omega (arith, h)) in
      rw (p.going k (omega (arith, h)), f.1, answered)
        (attempt_loop-Places d n (suc k) m x (some f.0) (count_retry cfg env k s)
          (omega (arith, lt)) (omega (arith, h)) p)

  attempt_loop-Refuses :
      (d n k m : ℕ) (e : Failure) (last : Option Failure) (s : Oms)
      → n ≡ suc d
      → k + d ≡ m
      → Refuses cfg env o m e
      → attempt_loop cfg env n k last o s
        ≡ fail cfg env o (retries_exhausted cfg.max_retries (some e)) (counted_from d k s)
  unfolding attempt_loop answered
  attempt_loop-Refuses d zero k m e last s lt h p = absurd (omega (arith, lt))
  attempt_loop-Refuses zero (suc zero) k m e last s lt h p =
      let here : env.place k o ≡ err e =
        ap (λ i. env.place i o) {x = k} (omega (arith, h)) ∙ p.last in
      rw (p.going k (omega (arith, h)), here, answered, attempt_loop) refl
  attempt_loop-Refuses zero (suc (suc n)) k m e last s lt h p = absurd (omega (arith, lt))
  attempt_loop-Refuses (suc d) (suc n) k m e last s lt h p =
      let f = p.failing k (omega (arith, h)) in
      rw (p.going k (omega (arith, h)), f.1, answered)
        (attempt_loop-Refuses d n (suc k) m e (some f.0) (count_retry cfg env k s)
          (omega (arith, lt)) (omega (arith, h)) p)

-- A valid order with an executor, whose attempt m is the first that Place accepts, with m at most
-- the number of retries and the context alive until then, is submitted under the id that Place
-- returned; nil is returned and m retries are counted.
pub submit_with_retry-Places :
    (num : Numbers) (cfg : Config) (env : Env) (o : Order) (l m : ℕ) (x : String) (s : Oms)
    → validate_order_for_place num cfg o ≡ none
    → has_executor_for cfg o ≡ true
    → cfg.max_retries ≡ pos l
    → m ≤ l
    → Places cfg env o m x
    → submit_with_retry num cfg env o s
      ≡ (handle_submit_success cfg env o x (add_retries m s), none)
unfolding submit_with_retry submit_valid
submit_with_retry-Places num cfg env o l m x s valid able limit le p =
    rw (valid, submit_valid, able)
      (attempt_loop-Places cfg env o m (rounds cfg.max_retries) 0 m x none s
          (omega (arith, ap rounds limit, le)) (omega arith) p
        ∙ ap (λ t. (handle_submit_success cfg env o x t, none)) (counted_from-zero cfg env o m s))

-- A valid order with an executor, whose attempts Place all refuses while the context lives, is
-- rejected after the first attempt and m retries, where m is the limit, with an error that names
-- the limit and the last attempt's error.
pub submit_with_retry-Refuses :
    (num : Numbers) (cfg : Config) (env : Env) (o : Order) (m : ℕ) (e : Failure) (s : Oms)
    → validate_order_for_place num cfg o ≡ none
    → has_executor_for cfg o ≡ true
    → cfg.max_retries ≡ pos m
    → Refuses cfg env o m e
    → submit_with_retry num cfg env o s
      ≡ fail cfg env o (retries_exhausted cfg.max_retries (some e)) (add_retries m s)
unfolding submit_with_retry submit_valid
submit_with_retry-Refuses num cfg env o m e s valid able limit p =
    rw (valid, submit_valid, able)
      (attempt_loop-Refuses cfg env o m (rounds cfg.max_retries) 0 m e none s (ap rounds limit)
          (omega arith) p
        ∙ ap (λ t. fail cfg env o (retries_exhausted cfg.max_retries (some e)) t)
            (counted_from-zero cfg env o m s))
