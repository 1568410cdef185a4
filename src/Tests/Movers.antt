-- ===== src/Tests/Movers.antt =====
-- A run of the data mover, at a concrete input.
use mt_hvac.Base.{◌≤◌, refl, ◌⊎◌, [], ◌∷◌, text}
use mt_hvac.Mover.Wakeups.{Shared, awake, copying, Step, Run, here, next, wake, copy}
use mt_hvac.Mover.Progress.{steps, IsDrained, Run-IsDrained}

-- Two files in the queue of a mover that has been woken; the first has been gone through.
abbrev woken : Shared
woken = record { queue = text "/d/x" ∷ (text "/d/y" ∷ []); phase = awake; taken = [] }

abbrev one_left : Shared
one_left = record { queue = []; phase = copying (text "/d/y" ∷ []); taken = text "/d/x" ∷ [] }

two_steps : Run woken [] one_left
two_steps = next (next here (wake refl)) (copy (text "/d/x") (text "/d/y" ∷ []) refl)

Run-IsDrained_example :
    IsDrained woken one_left ⊎ ((steps two_steps ≤ 2) × (u : Shared) × Step one_left [] u)
Run-IsDrained_example = Run-IsDrained two_steps refl
