-- ===== src/World/Ticking.antt =====
-- A concrete world for the tests: a count of seconds that each reading advances by one.
use agentpause.Prelude.{ℕ, ◌+◌, ◌*◌, ◌/◌, List, [], ◌∷◌, arith}
use agentpause.Prelude.Int.{ℤ, pos_part, ◌+ℤ◌}
use agentpause.Number.Fixed.{Milli, milli, milli_float}
use agentpause.Errors.{Error, ok, raise}
use agentpause.Text.{Text, codes}
use agentpause.World.{Message, Clock, Backend, Sleep, IsMonotonic, Sleeps}

abbrev pub ticking : Clock Milli ℕ
ticking w = (milli (w * 1000), w + 1)

-- sleeps in whole seconds, rounded up
abbrev pub resting : Sleep Milli ℕ
resting d w = w + (pos_part d.thousandths + 999) / 1000

abbrev pub failing : Error Milli → Backend Milli ℕ
failing e messages w = (raise e, w + 1)

abbrev pub replying : Text → ℤ → Backend Milli ℕ
replying reply used messages w = (ok (reply, used), w + 1)

abbrev pub hello : List Message
hello = record { role = codes "user"; content = codes "hi" } ∷ []

pub ticking-IsMonotonic : IsMonotonic ticking
ticking-IsMonotonic w = ground arith

pub resting-Sleeps : Sleeps ticking resting
unfolding ◌+ℤ◌
resting-Sleeps d w = ground arith
