-- ===== src/Fallback.antt =====
-- src/agentpause/fallback.py: an ordered chain of backends.
pub mod Chain
mod Tests
use agentpause.Prelude.{
  ℕ, zero, suc, ◌+◌, Bool, true, false, Option, none, some, List, [], ◌∷◌, ◌++◌, if◌then◌else◌, ltb,
  length,
}
use agentpause.Prelude.Int.{ℤ}
use agentpause.Errors.{Error, Result, ok, raise, foreign, transient, fatal, verdict}
use agentpause.Text.{Text}
use agentpause.World.{Message, Backend}

-- The chain and what a call leaves behind: the backend that served it, and the calls of
-- `on_fallback` in order.
pub record Fallback (F W : Type 0) : Type 0 where
  pub backends : List (Backend F W)
  pub last_index : Option ℕ
  pub switched : List (ℕ × Error F)

-- `__init__`, which raises ValueError for an empty chain
pub init : {F W : Type 0} → List (Backend F W) → Result F (Fallback F W)
init [] = raise foreign
init (b ∷ bs) = ok (record { backends = b ∷ bs; last_index = none; switched = [] })

module _ {F W : Type 0} where
  -- `self.on_fallback(i + 1, last_exc)`, if another backend follows
  pub report : ℕ → Error F → List (Backend F W) → Fallback F W → Fallback F W
  report i e [] c = c
  report i e (b ∷ bs) c = record c { switched = c.switched ++ ((i + 1, e) ∷ []) }

  -- The loop from backend `i` on; `last_exc` is the last transient error, and without one the
  -- assertion behind the loop fails.
  pub serve :
      List Message
      → List (Backend F W)
      → ℕ
      → Option (Error F)
      → Fallback F W
      → W
      → Result F (Text × ℤ) × Fallback F W × W
  serve messages [] i none c w = (raise foreign, c, w)
  serve messages [] i (some e) c w = (raise e, c, w)
  serve messages (b ∷ bs) i last_exc c w =
      let (r, w') = b messages w in
      elim r [
        | ok reply ↦ (ok reply, record c { last_index = some i }, w')
        | raise e ↦ elim (verdict e) [
          | transient ↦ serve messages bs (suc i) (some e) (report i e bs c) w'
          | fatal ↦ (raise e, c, w')
        ]
      ]

  pub call : List Message → Fallback F W → W → Result F (Text × ℤ) × Fallback F W × W
  call messages c w = serve messages c.backends 0 none c w
