-- ===== src/Consciousness/Life.antt =====
-- The life loop of consciousness/core/consciousness.c: `consciousness_init` and the rounds of
-- `consciousness_run`, over the other components of consciousness/.
pub mod Signal
pub mod Run
mod Tests
use aion_os.Prelude.{
  ℕ, zero, suc, ◌+◌, ◌-◌, ◌*◌, ◌/◌, ◌%◌, ◌^◌, Bool, true, false, not, Option, none, some, List, [],
  ◌∷◌, ◌++◌, ltb, if◌then◌else◌, length, take,
}
use aion_os.Prelude.Words.{add64}
use aion_os.Kernel.Memory.Pmm.{Pmm}
use aion_os.Kernel.Memory.Swap.{Swap}
use aion_os.Kernel.Memory.Status.{MemoryStatus, memory_get_status}
use aion_os.Consciousness.Text.{Text, codes}
use aion_os.Consciousness.Memory.Disk.{Files, mem_episodic, to_decimal}
use aion_os.Consciousness.Memory.{
  AionMemoryEntry, Store, aion_memory_has_store, aion_memory_init, aion_memory_store,
  aion_memory_load_all,
}
use aion_os.Consciousness.Senses.{World, SenseSnapshot, Senses, senses_init, senses_capture}
use aion_os.Consciousness.Action.Results.{Act}
use aion_os.Consciousness.Action.Handlers.{Services}
use aion_os.Consciousness.Action.Dispatch.{action_parse_and_execute}
use aion_os.Consciousness.Llm.{Llama, Llm, Outcome, refused, decoded, llm_init, llm_feed, llm_think}

-- `%u` and `%llu`. No number of 64 bits has as many digits as the fuel allows.
abbrev pub unsigned32 : ℕ → Text
unsigned32 n = to_decimal 64 (n % 2 ^ 32)

abbrev pub unsigned64 : ℕ → Text
unsigned64 n = to_decimal 64 (n % 2 ^ 64)

-- `%d` of a `bool`
abbrev pub flag : Bool → Text
flag b = if b then b'1' ∷ [] else b'0' ∷ []

abbrev pub tick_text : ℕ → Text
tick_text tick = codes "t:" ++ (unsigned64 tick ++ codes " ")

abbrev pub camera_text : SenseSnapshot → Text
camera_text s =
    codes "cam:"
    ++ (unsigned32 s.camera_frame.width
        ++ (codes ","
            ++ (unsigned32 s.camera_frame.height
                ++ (codes ",luma:"
                    ++ (unsigned32 s.camera_frame.mean_luma
                        ++ (codes ",delta:"
                            ++ (unsigned32 s.camera_frame.motion_delta ++ codes " ")))))))

abbrev pub mic_text : SenseSnapshot → Text
mic_text s =
    codes "mic:rms:"
    ++ (unsigned32 s.mic_frame.amplitude_rms
        ++ (codes ",silence:" ++ (flag s.mic_frame.is_silence ++ codes " ")))

abbrev pub net_text : SenseSnapshot → Text
net_text s =
    codes "net:"
    ++ (flag s.network.connected ++ (codes ",rx:" ++ (unsigned64 s.network.rx_total ++ codes " ")))

abbrev pub memory_text : MemoryStatus → Text
memory_text m = codes "mem_free:" ++ (unsigned64 (m.free_physical / (1024 * 1024)) ++ 10 ∷ [])

-- `sizeof(sense_buf)`
abbrev pub sense_buf_size : ℕ
sense_buf_size = 2048

-- `sense_buf` up to its terminator, and `pos`.
pub record SenseBuf : Type 0 where
  pub written : Text
  pub pos : ℕ

-- `pos += snprintf(sense_buf + pos, sizeof(sense_buf) - pos, …)` of a text: it writes what the
-- remaining room holds beside the terminator, and adds the length of all of it to `pos`. Behind the
-- end of the buffer the remaining room wraps around, and the call writes outside: `none`.
pub snprintf : Text → Option SenseBuf → Option SenseBuf
snprintf text none = none
snprintf text (some b) =
    if ltb sense_buf_size b.pos
    then none
    else some (record {
      written = b.written ++ take (sense_buf_size - b.pos - 1) text;
      pos = b.pos + length text;
    })

pub snprintf_if : Bool → Text → Option SenseBuf → Option SenseBuf
snprintf_if available text b = if available then snprintf text b else b

-- `sense_buf[pos] = 0`, which may fall outside of the buffer; then what `sense_buf` reads as.
pub end_text : Option SenseBuf → Option Text
end_text none = none
end_text (some b) = if ltb b.pos sense_buf_size then some b.written else none

-- The sense signal of a round. `none` is a write outside of `sense_buf`.
pub sense_text : ℕ → SenseSnapshot → MemoryStatus → Option Text
sense_text tick s m =
    let ticked = snprintf (tick_text tick) (some (record { written = []; pos = 0 })) in
    let seen = snprintf_if s.camera_available (camera_text s) ticked in
    let heard = snprintf_if s.mic_available (mic_text s) seen in
    let connected = snprintf_if s.network_available (net_text s) heard in
    end_text (snprintf (memory_text m) connected)

-- `FIRST_SIGNAL`
pub first_signal : Text
first_signal =
    codes
      "boot:0 ram:4096MB storage:128GB display:1366x768 audio:present camera:present mic:present network:present"
    ++ 10 ∷ []

-- The parts of the machine: what the senses read, the memory counters, and the store of
-- aion_memory.c, which the actions change too.
pub record Machine (V W : Type 0) : Type 0 where
  pub world : W → World
  pub pmm : W → Pmm
  pub swap : W → Swap
  pub store : W → Store V
  pub with_store : Store V → W → W

-- The static variables of the loop and of the components below it.
pub record Life (K W : Type 0) : Type 0 where
  pub tick : ℕ
  pub senses : Senses
  pub llm : Llm K
  pub act : Act W

-- The experience of a round, `exp`.
abbrev pub experience : ℕ → Text → AionMemoryEntry
experience tick output = record {
  type = mem_episodic;
  importance = 1;
  tick = tick;
  content = output;
}

module _ {K V W : Type 0} (llama : Llama K) (files : Files V) (services : Services W)
    (machine : Machine V W) where
  pub with_result : Act W → Option (Store V) → Option (Act W)
  with_result a none = none
  with_result a (some s) = some (record a { world = machine.with_store s a.world })

  -- `aion_memory_store` of the experience, from the result of the actions on. `stack` is what the
  -- stack holds. `none` is a fault of the call.
  pub store_experience : (ℕ → Text) → ℕ → Text → Option (Act W) → Option (Act W)
  unfolding with_result
  store_experience stack tick output none = none
  store_experience stack tick output (some a) =
      with_result a (aion_memory_store files stack (experience tick output) (machine.store a.world))

  pub with_act : Llm K → Life K W → Option (Act W) → Option (Life K W)
  with_act m l none = none
  with_act m l (some a) = some (record l { llm = m; act = a })

  -- A round from the thought on: without output it ends here.
  pub act_on : (ℕ → Text) → Option Text × Llm K → Life K W → Option (Life K W)
  unfolding store_experience with_act
  act_on stack (none, m) l = some (record l { llm = m })
  act_on stack (some [], m) l = some (record l { llm = m })
  act_on stack (some (c ∷ s), m) l =
      with_act m l
        (store_experience stack l.tick (c ∷ s) (action_parse_and_execute services (c ∷ s) l.act))

  pub think_on : (ℕ → Text) → Option (Outcome × Llm K) → Life K W → Option (Life K W)
  unfolding act_on
  think_on stack none l = none
  think_on stack (some (o, m)) l = act_on stack (llm_think llama 4096 256 m) l

  -- A round from the sense signal on, as `sense_buf` holds it.
  pub feel_on : (ℕ → Text) → Option Text → Life K W → Option (Life K W)
  unfolding think_on
  feel_on stack none l = none
  feel_on stack (some text) l = think_on stack (llm_feed llama (some text) l.llm) l

  pub perceive_on : (ℕ → Text) → Option (SenseSnapshot × Senses) → Life K W → Option (Life K W)
  unfolding feel_on
  perceive_on stack none l = none
  perceive_on stack (some (snap, senses)) l =
      let w = l.act.world in
      let text = sense_text l.tick snap (memory_get_status (machine.pmm w) (machine.swap w)) in
      feel_on stack text (record l { senses = senses })

  -- One round of the loop of `consciousness_run`. `none` is a fault in one of the calls.
  pub live : (ℕ → Text) → Life K W → Option (Life K W)
  unfolding perceive_on
  live stack l =
      perceive_on stack (senses_capture (machine.world l.act.world) l.senses)
        (record l { tick = add64 l.tick 1 })

  -- The first `n` rounds; the loop has no end. `stack` gives what the stack holds in each of them.
  pub consciousness_run : ℕ → (ℕ → ℕ → Text) → Life K W → Option (Life K W)
  consciousness_run zero stack l = some l
  consciousness_run (suc n) stack l = elim (live (stack n) l) [
    | none ↦ none
    | some l' ↦ consciousness_run n stack l'
  ]

  -- What `consciousness_init` ends with: the `hlt` loop behind a model that does not load, or a life.
  pub data Awakening : Type 0 where
    halted : Awakening
    awake : Life K W → Awakening

  -- The end of `consciousness_init`: the first signal, or the store that is there. `index` and `buf`
  -- are what the buffers of `aion_memory_load_all` hold.
  pub first_input : Text → Text → Llm K → Life K W → Option Awakening
  first_input index buf m l =
      let s = machine.store l.act.world in
      if not (aion_memory_has_store files s.disk)
      then elim (llm_feed llama (some first_signal) m) [
        | none ↦ none
        | some (o, m') ↦ some (awake (record l { llm = m' }))
      ]
      else elim (aion_memory_load_all files index buf s) [
        | none ↦ none
        | some s' ↦ some (
            awake (record l {
              llm = m;
              act = record { results = l.act.results; world = machine.with_store s' l.act.world };
            }))
      ]

  pub model_on : Text → Text → Outcome × Llm K → Life K W → Option Awakening
  unfolding first_input
  model_on index buf (refused e, m) l = some halted
  model_on index buf (decoded e, m) l = first_input index buf m l

  pub consciousness_init : ℕ → Text → Text → Life K W → Option Awakening
  unfolding model_on
  consciousness_init tsc index buf l =
      let w = l.act.world in
      let w' = machine.with_store (aion_memory_init files (machine.store w)) w in
      model_on index buf (llm_init llama l.llm) (record l {
        senses = senses_init tsc l.senses;
        act = record { results = l.act.results; world = w' };
      })

pub consciousness_get_tick : {K W : Type 0} → Life K W → ℕ
consciousness_get_tick l = l.tick
