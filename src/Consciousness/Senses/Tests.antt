-- ===== src/Consciousness/Senses/Tests.antt =====
-- Captures of small frames.
use aion_os.Prelude.{◌≡◌, refl, arith}
use aion_os.Consciousness.Senses.{CamFrame, MicFrame, integer_sqrt, root_loop, shrink}
use aion_os.Consciousness.Senses.Root.{IsRoot, integer_sqrt-IsRoot}

root_of_99 : integer_sqrt 99 ≡ 9
unfolding integer_sqrt root_loop shrink
root_of_99 = refl

integer_sqrt-IsRoot_example : IsRoot 99 (integer_sqrt 99)
integer_sqrt-IsRoot_example = integer_sqrt-IsRoot 99 (omega arith)

-- Samples -3.
abbrev quiet : MicFrame
quiet = record { sample_rate = 16000; channels = 1; sample_count = 4; samples = λ i. 65533 }

abbrev grey : CamFrame
grey = record { width = 2; height = 2; bytes = λ i. 100 }
