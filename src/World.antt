-- ===== src/World.antt =====
-- What the library calls and does not implement: clocks, providers, sleeping. A call takes the state
-- of the world and returns the next one, so the order of the calls is part of the model.
pub mod Ticking
use agentpause.Prelude.{ℕ, List}
use agentpause.Prelude.Int.{ℤ}
use agentpause.Number.{Float, ◌≼◌}
use agentpause.Errors.{Result}
use agentpause.Text.{Text}

pub record Message : Type 0 where
  pub role : Text
  pub content : Text

-- `clock()`
abbrev pub Clock : Type 0 → Type 0 → Type 0
Clock F W = W → F × W

-- `backend(messages)`: the reply and the tokens used, or an exception
abbrev pub Backend : Type 0 → Type 0 → Type 0
Backend F W = List Message → W → Result F (Text × ℤ) × W

-- `sleep_fn(seconds)`
abbrev pub Sleep : Type 0 → Type 0 → Type 0
Sleep F W = F → W → W

module _ {F W : Type 0} ⦃f : Float F⦄ where
  -- A later reading is not earlier.
  abbrev pub IsMonotonic : Clock F W → Type 0
  IsMonotonic clock = (w : W) → (clock w).0 ≼ (clock (clock w).1).0

  -- Between a reading and the next one, a sleep of `d` seconds lasts at least `d`.
  abbrev pub Sleeps : Clock F W → Sleep F W → Type 0
  Sleeps clock sleep = (d : F) (w : W) → f.add (clock w).0 d ≼ (clock (sleep d (clock w).1)).0
