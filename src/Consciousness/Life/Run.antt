-- ===== src/Consciousness/Life/Run.antt =====
-- The rounds of `consciousness_run`: what each of them does, and what they keep.
use aion_os.Prelude.{ℕ, suc, ◌<◌, ◌≡◌, Option, none, some, [], length}
use aion_os.Prelude.Words.{add64}
use aion_os.Consciousness.Text.{Text}
use aion_os.Consciousness.Memory.Disk.{Files}
use aion_os.Consciousness.Memory.{Store, aion_memory_store}
use aion_os.Consciousness.Senses.{SenseSnapshot, Senses, senses_capture}
use aion_os.Consciousness.Action.Results.{Act}
use aion_os.Consciousness.Action.Handlers.{Services}
use aion_os.Consciousness.Action.Dispatch.Commands.{run_all, commands}
use aion_os.Consciousness.Llm.{Llama, Llm, Outcome, llm_feed, llm_think}
use aion_os.Consciousness.Llm.Context.{Fits}
use aion_os.Consciousness.Life.{Life, Machine, experience}
use aion_os.Kernel.Memory.Status.{memory_get_status}
use aion_os.Consciousness.Life.Signal.{signal}

-- A text that leaves room for the terminator.
abbrev Short : ℕ → Option Text → Type 0
Short n none = Unit
Short n (some text) = length text < n

module _ {K V W : Type 0} (llama : Llama K) (files : Files V) (services : Services W)
    (machine : Machine V W) (stack : ℕ → Text) where
  -- The machine after the actions that the output spells.
  abbrev pub acted_on : Text → Act W → Act W
  acted_on output a = run_all services (commands (suc (length output)) output) a

  abbrev pub stored : ℕ → Text → Act W → Option (Store V)
  stored tick output a =
      aion_memory_store files stack (experience tick output) (machine.store a.world)

  -- The signal of the round.
  abbrev pub told : Life K W → SenseSnapshot → Text
  told l snap =
      let w = l.act.world in
      signal (add64 l.tick 1) snap (memory_get_status (machine.pmm w) (machine.swap w))

  -- The round up to its output: the senses, the signal fed to the model, and the model's thought.
  pub record Considered (l : Life K W) (senses : Senses) (output : Option Text) (m : Llm K)
      : Type 0 where
    pub snap : SenseSnapshot
    pub outcome : Outcome
    pub heard : Llm K
    pub sensed : senses_capture (machine.world l.act.world) l.senses ≡ some (snap, senses)
    pub fed : llm_feed llama (some (told l snap)) l.llm ≡ some (outcome, heard)
    pub thought : llm_think llama 4096 256 heard ≡ (output, m)
    pub fits : Fits m

  pub data IsSilent : Option Text → Type 0 where
    no_output : IsSilent none
    empty : IsSilent (some [])

  -- What becomes of a life `l` in a round.
  pub data Lived (l : Life K W) : Option (Life K W) → Type 0 where
    blind : senses_capture (machine.world l.act.world) l.senses ≡ none → Lived l none
    quiet :
        (senses : Senses) (output : Option Text) (m : Llm K)
        → Considered l senses output m
        → IsSilent output
        → Lived l (some (record l { tick = add64 l.tick 1; senses = senses; llm = m }))
    overflow :
        (senses : Senses) (output : Text) (m : Llm K)
        → Considered l senses (some output) m
        → 0 < length output
        → stored (add64 l.tick 1) output (acted_on output l.act) ≡ none
        → Lived l none
    acted :
        (senses : Senses) (output : Text) (m : Llm K) (s : Store V)
        → Considered l senses (some output) m
        → 0 < length output
        → length output < 4096
        → stored (add64 l.tick 1) output (acted_on output l.act) ≡ some s
        → Lived l (
            some (record l {
              tick = add64 l.tick 1;
              senses = senses;
              llm = m;
              act = record (acted_on output l.act) {
                world = machine.with_store s (acted_on output l.act).world;
              };
            }))

  module _ (l : Life K W) (senses : Senses) where
    abbrev next_life : Life K W
    next_life = record l { tick = add64 l.tick 1; senses = senses }
