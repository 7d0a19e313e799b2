-- ===== src/Fallback/Tests.antt =====
-- Runs of the fallback chain, and its theorems at a concrete chain.
use agentpause.Prelude.{ℕ, true, none, some, [], ◌∷◌, ◌≡◌, refl, length}
use agentpause.Prelude.Int.{pos}
use agentpause.Number.Fixed.{Milli}
use agentpause.Errors.{Error, ok, raise, rate_limit_hit, backend_error, foreign}
use agentpause.Text.{codes}
use agentpause.World.{Backend}
use agentpause.World.Ticking.{failing, replying, hello}
use agentpause.Fallback.{Fallback, init, report, serve, call}
use agentpause.Fallback.Chain.{Decided, last_error, call-Decided, call_exhausted}

abbrev limited : Backend Milli ℕ
limited = failing (rate_limit_hit none)

abbrev flaky : Backend Milli ℕ
flaky = failing (backend_error true)

abbrev answers : Backend Milli ℕ
answers = replying (codes "hi") (pos 7)

abbrev chain : Fallback Milli ℕ
chain = record {
  backends = limited ∷ flaky ∷ answers ∷ limited ∷ [];
  last_index = none;
  switched = [];
}

program : Unit {0}
unfolding init report serve call
program = tt

third_serves : call hello chain 0 ≡ (
  ok (codes "hi", pos 7),
  record chain {
    last_index = some 2;
    switched = (1, rate_limit_hit none) ∷ (2, backend_error true) ∷ [];
  },
  3,
)
unfolding program
third_serves = refl

no_chain : init {F = Milli} {W = ℕ} [] ≡ raise foreign
unfolding program
no_chain = refl

call-Decided_example :
    let out = call hello chain 0 in
    Decided hello 2 (ok (codes "hi", pos 7)) chain out × (out.2 ≡ 3) × (length out.1.switched ≡ 2)
call-Decided_example =
    call-Decided hello (limited ∷ flaky ∷ []) answers (limited ∷ []) chain 0 refl
      ((rate_limit_hit none, refl, refl), ((backend_error true, refl, refl), tt)) (λ e h. cc)

call_exhausted_example :
    let (r, c', w') = call hello (record chain { backends = limited ∷ flaky ∷ [] }) 0 in
    ((x : Error Milli) × (last_error hello none (limited ∷ flaky ∷ []) 0 ≡ some x) × (r ≡ raise x))
    × (c'.last_index ≡ none)
    × (w' ≡ 2)
    × (length c'.switched ≡ 1)
call_exhausted_example =
    call_exhausted hello limited (flaky ∷ []) (record chain { backends = limited ∷ flaky ∷ [] }) 0
      refl ((rate_limit_hit none, refl, refl), ((backend_error true, refl, refl), tt))
