-- ===== src/Scheduler/Retries.antt =====
-- The failed attempts of a call in src/agentpause/scheduler.py, and what a scheduler keeps.
use agentpause.Prelude.{
  ◌⊎◌, ℕ, zero, suc, ◌+◌, ◌≤◌, Bool, true, false, List, ◌≡◌, refl, ap, ◌∙◌, arith, if◌then◌else◌,
}
use agentpause.Number.{Float}
use agentpause.Errors.{is_limit, Error, ok, raise, transient, fatal, verdict}
use agentpause.World.{Message, Backend}
use agentpause.Scheduler.{
  Config, Scheduler, noted, announce, pause_for, rest, register_rate_limit_hit,
}

-- What the retries may change of a scheduler: its margin and its count of rate limits.
pub record Kept {F E : Type 0} (s s' : Scheduler F E) : Type 0 where
  pub estimator : s'.estimator ≡ s.estimator
  pub money : s'.money_spent ≡ s.money_spent
  pub hits : s.rate_limit_hits ≤ s'.rate_limit_hits

module _ {F W E : Type 0} ⦃f : Float F⦄ (c : Config F W) where
  pub noted-Kept : (e : Error F) (s : Scheduler F E) → Kept s (noted c e s)
  unfolding register_rate_limit_hit
  noted-Kept e s = record { estimator = ground arith; money = ground arith; hits = ground arith }

  pub retried-Kept :
      (e : Error F) (sync : Bool) (attempt : ℕ) (d : F) (s : Scheduler F E)
      → Kept s (announce c sync attempt d (noted c e s))
  retried-Kept e true attempt d s =
      let k = noted-Kept e s in
      record {
        estimator = ground (arith, k.estimator);
        money = ground (arith, k.money);
        hits = ground (arith, k.hits);
      }
  retried-Kept e false attempt d s = noted-Kept e s

  pub noted_hits :
      (e : Error F) (s : Scheduler F E)
      → (noted c e s).rate_limit_hits ≡ s.rate_limit_hits + (if is_limit e then 1 else 0)
  unfolding register_rate_limit_hit
  noted_hits e s = ground arith

pub verdict-cases : {F : Type 0} (e : Error F) → (verdict e ≡ fatal) ⊎ (verdict e ≡ transient)
verdict-cases e = ground arith

pub Kept-refl : {F E : Type 0} (s : Scheduler F E) → Kept s s
Kept-refl s = record { estimator = refl; money = refl; hits = omega arith }

pub Kept-trans : {F E : Type 0} (a b c : Scheduler F E) → Kept a b → Kept b c → Kept a c
Kept-trans a b c p q = record {
  estimator = q.estimator ∙ p.estimator;
  money = q.money ∙ p.money;
  hits = omega (arith, p.hits, q.hits);
}

module _ {F W : Type 0} ⦃f : Float F⦄ (c : Config F W) (backend : Backend F W) (sync : Bool) where
  -- the world once the pause after a failed attempt is over
  abbrev pub rested : Error F → ℕ → W → W
  rested e attempt w = let (d, w') = pause_for c e attempt w in rest c sync d w'

  module _ (messages : List Message) where
    -- the world before the attempt that follows `n` failed ones
    abbrev pub after : ℕ → ℕ → W → W
    after zero attempt w = w
    after (suc n) attempt w = elim (backend messages w).0 [
      | ok x ↦ (backend messages w).1
      | raise e ↦ after n (suc attempt) (rested e attempt (backend messages w).1)
    ]

    -- Each of the next `n` attempts fails transiently.
    abbrev pub Fails : ℕ → ℕ → W → Type 0
    Fails zero attempt w = Unit
    Fails (suc n) attempt w =
        (e : Error F) × ((backend messages w).0 ≡ raise e)
        × (verdict e ≡ transient)
        × Fails n (suc attempt) (rested e attempt (backend messages w).1)

    -- how many of them are rate limits
    abbrev pub limits : ℕ → ℕ → W → ℕ
    limits zero attempt w = 0
    limits (suc n) attempt w = elim (backend messages w).0 [
      | ok x ↦ 0
      | raise e ↦
          (if is_limit e then 1 else 0)
          + limits n (suc attempt) (rested e attempt (backend messages w).1)
    ]

    pub after_failure :
        (n attempt : ℕ) (w : W) (e : Error F)
        → (backend messages w).0 ≡ raise e
        → let w' = rested e attempt (backend messages w).1 in
          (after (suc n) attempt w ≡ after n (suc attempt) w')
          × (limits (suc n) attempt w ≡ (if is_limit e then 1 else 0) + limits n (suc attempt) w')
    after_failure n attempt w e h =
        let w' = (backend messages w).1 in
        (
          ap
              (λ r. elim r as (λ _. W) [
                | ok x ↦ w'
                | raise x ↦ after n (suc attempt) (rested x attempt w')
              ])
              h,
          ap
              (λ r. elim r as (λ _. ℕ) [
                | ok x ↦ 0
                | raise x ↦
                    (if is_limit x then 1 else 0) + limits n (suc attempt) (rested x attempt w')
              ])
              h,
        )

    pub Fails-last :
        (n attempt : ℕ) (w : W)
        → Fails (suc n) attempt w
        → (e : Error F) × ((backend messages (after n attempt w)).0 ≡ raise e)
    Fails-last zero attempt w (e, t, v, h) = (e, t)
    Fails-last (suc n) attempt w (e, t, v, h) =
        let (x, last) = Fails-last n (suc attempt) _ h in
        (x, ap (λ v. (backend messages v).0) (after_failure n attempt w e t).0 ∙ last)
