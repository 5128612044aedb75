-- ===== src/Consciousness/Action/Dispatch.antt =====
-- `action_parse_and_execute` of consciousness/core/action.c, and `action_get_results_str`.
pub mod Bounded
pub mod Commands
pub mod Shadow
use aion_os.Prelude.{
  ℕ, zero, suc, ◌+◌, ◌-◌, Bool, true, false, Option, none, some, List, [], ◌∷◌, ◌++◌, ltb, leb,
  ◌==◌, if◌then◌else◌, length, take,
}
use aion_os.Consciousness.Text.{Text, codes, strip_prefix, split_at}
use aion_os.Consciousness.Action.Results.{Act}
use aion_os.Consciousness.Action.Handlers.{
  Services, act_display, act_display_pixel, act_display_clear, act_audio_freq, act_audio_pcm,
  act_audio_stop, act_memory_store, act_memory_recall, act_file_read, act_file_write, act_net_fetch,
  act_cpu_freq_set, act_sleep_ms, act_hardware_query,
}

-- The handlers of the table `actions`.
pub data Action : Type 0 where
  display display_pixel display_clear : Action
  audio_freq audio_pcm audio_stop : Action
  memory_store memory_recall : Action
  file_read file_write net_fetch : Action
  cpu_freq_set sleep_ms hardware_query : Action

pub record ActionDef : Type 0 where
  pub name : Text
  pub handler : Action

abbrev def : Text → Action → ActionDef
def n h = record { name = n; handler = h }

-- The table, in its order.
pub actions : List ActionDef
actions =
    def (codes "ACT:DISPLAY") display
    ∷ def (codes "ACT:DISPLAY_PIXEL") display_pixel
    ∷ def (codes "ACT:DISPLAY_CLEAR") display_clear
    ∷ def (codes "ACT:AUDIO_FREQ") audio_freq
    ∷ def (codes "ACT:AUDIO_PCM") audio_pcm
    ∷ def (codes "ACT:AUDIO_STOP") audio_stop
    ∷ def (codes "ACT:MEMORY_STORE") memory_store
    ∷ def (codes "ACT:MEMORY_RECALL") memory_recall
    ∷ def (codes "ACT:FILE_READ") file_read
    ∷ def (codes "ACT:FILE_WRITE") file_write
    ∷ def (codes "ACT:NET_FETCH") net_fetch
    ∷ def (codes "ACT:CPU_FREQ_SET") cpu_freq_set
    ∷ def (codes "ACT:SLEEP_MS") sleep_ms
    ∷ def (codes "ACT:HARDWARE_QUERY") hardware_query
    ∷ []

-- The loop over the table: the first entry whose name begins the text behind the `<`.
pub first_match : List ActionDef → Text → Option Action
first_match [] s = none
first_match (d ∷ ds) s = elim (strip_prefix d.name s) [
  | some _ ↦ some d.handler
  | none ↦ first_match ds s
]

module _ {W : Type 0} (sv : Services W) where
  pub run_action : Action → Text → Act W → Act W
  run_action display = act_display sv
  run_action display_pixel = act_display_pixel sv
  run_action display_clear = act_display_clear sv
  run_action audio_freq = act_audio_freq sv
  run_action audio_pcm = act_audio_pcm sv
  run_action audio_stop = act_audio_stop sv
  run_action memory_store = act_memory_store sv
  run_action memory_recall = act_memory_recall sv
  run_action file_read = act_file_read sv
  run_action file_write = act_file_write sv
  run_action net_fetch = act_net_fetch sv
  run_action cpu_freq_set = act_cpu_freq_set sv
  run_action sleep_ms = act_sleep_ms sv
  run_action hardware_query = act_hardware_query sv

  -- The outer loop, from the position `p`. `none` means that the fuel ran out.
  pub scan : ℕ → Text → Act W → Option (Act W)
  scan zero p a = none
  scan (suc fuel) p a = elim (split_at b'<' p) [
    | none ↦ some a
    | some (_, behind) ↦ elim (first_match actions behind) [
      | none ↦ scan fuel behind a
      | some action ↦ elim (split_at b'>' behind) [
        | none ↦ scan fuel behind a
        | some (token, rest) ↦ scan fuel rest (run_action action (take 2047 token) a)
      ]
    ]
  ]

  pub action_parse_and_execute : Text → Act W → Option (Act W)
  action_parse_and_execute output a = scan (suc (length output)) output a
