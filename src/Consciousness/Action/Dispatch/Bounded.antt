-- ===== src/Consciousness/Action/Dispatch/Bounded.antt =====
-- The results of a whole output fit the array and the buffer.
use aion_os.Prelude.{
  Bool, true, false, suc, ◌≡◌, some, List, [], ◌∷◌, arith, length, inl, inr, Option-cases,
  if◌then◌else◌,
}
use aion_os.Consciousness.Text.{Text, codes}
use aion_os.Consciousness.Action.Params.{parse_param_str}
use aion_os.Consciousness.Action.Handlers.{
  Services, act_display, act_display_pixel, act_display_clear, act_audio_freq, act_audio_pcm,
  act_audio_stop, act_memory_store, act_memory_recall, act_file_read, act_file_write, act_net_fetch,
  act_cpu_freq_set, act_sleep_ms, act_hardware_query,
}
use aion_os.Consciousness.Action.Results.{Act}
use aion_os.Consciousness.Action.Results.Kept.{IsBounded, record_result-IsBounded}
use aion_os.Consciousness.Action.Dispatch.{
  Action, display, display_pixel, display_clear, audio_freq, audio_pcm, audio_stop, memory_store,
  memory_recall, file_read, file_write, net_fetch, cpu_freq_set, sleep_ms, hardware_query,
  run_action, action_parse_and_execute,
}
use aion_os.Consciousness.Action.Dispatch.Commands.{
  commands, run_all, action_parse_and_execute-commands,
}

moved : {W : Type 0} (w : W) (a : Act W) → IsBounded a → IsBounded (record a { world = w })
moved w a b = record { few = b.few; short = b.short }

choice :
    {W : Type 0} (c : Bool) (a b : Act W)
    → IsBounded a
    → IsBounded b
    → IsBounded (if c then a else b)
choice true a b ha hb = ha
choice false a b ha hb = hb

module _ {W : Type 0} (sv : Services W) where
  act_audio_pcm-IsBounded :
      (token : Text) (a : Act W) → IsBounded a → IsBounded (act_audio_pcm sv token a)
  unfolding act_audio_pcm
  act_audio_pcm-IsBounded token a b =
      elim (Option-cases (parse_param_str token (codes "data") 4096)) [
        | inl e ↦ rw (e, act_audio_pcm) b
        | inr (hex, e) ↦
            rw (e, act_audio_pcm) (record_result-IsBounded _ _ (moved _ a b) (omega arith))
      ]

  run_action-IsBounded :
      (action : Action) (token : Text) (a : Act W)
      → IsBounded a
      → IsBounded (run_action sv action token a)
  unfolding run_action act_display act_display_pixel act_display_clear act_audio_freq act_audio_stop
      act_memory_store act_memory_recall act_file_read act_file_write act_net_fetch act_cpu_freq_set
      act_sleep_ms act_hardware_query
  run_action-IsBounded display token a b = record_result-IsBounded _ _ (moved _ a b) (omega arith)
  run_action-IsBounded display_pixel token a b = moved _ a b
  run_action-IsBounded display_clear token a b =
      record_result-IsBounded _ _ (moved _ a b) (omega arith)
  run_action-IsBounded audio_freq token a b =
      record_result-IsBounded _ _ (moved _ a b) (omega arith)
  run_action-IsBounded audio_pcm token a b = act_audio_pcm-IsBounded token a b
  run_action-IsBounded audio_stop token a b =
      record_result-IsBounded _ _ (moved _ a b) (omega arith)
  run_action-IsBounded memory_store token a b =
      record_result-IsBounded _ _ (moved _ a b) (omega arith)
  run_action-IsBounded memory_recall token a b =
      choice _ _ _ (record_result-IsBounded _ _ b (omega arith))
        (record_result-IsBounded _ _ b (omega arith))
  run_action-IsBounded file_read token a b =
      choice _ _ _ (record_result-IsBounded _ _ b (omega arith))
        (record_result-IsBounded _ _ b (omega arith))
  run_action-IsBounded file_write token a b =
      choice _ _ _ (record_result-IsBounded _ _ b (omega arith))
        (record_result-IsBounded _ _ (moved _ a b) (omega arith))
  run_action-IsBounded net_fetch token a b =
      choice _ _ _ (record_result-IsBounded _ _ b (omega arith))
        (record_result-IsBounded _ _ b (omega arith))
  run_action-IsBounded cpu_freq_set token a b =
      record_result-IsBounded _ _ (moved _ a b) (omega arith)
  run_action-IsBounded sleep_ms token a b = record_result-IsBounded _ _ b (omega arith)
  run_action-IsBounded hardware_query token a b = record_result-IsBounded _ _ b (omega arith)

  run_all-IsBounded :
      (cs : List (Action × Text)) (a : Act W) → IsBounded a → IsBounded (run_all sv cs a)
  unfolding run_all
  run_all-IsBounded [] a b = b
  run_all-IsBounded ((action, token) ∷ cs) a b =
      run_all-IsBounded cs _ (run_action-IsBounded action token a b)

  -- Executing any output ends, and keeps the results within their bounds: at most 32 of them, none
  -- longer than 197 bytes.
  pub action_parse_and_execute-IsBounded :
      (output : Text) (a : Act W)
      → IsBounded a
      → (r : Act W) × (action_parse_and_execute sv output a ≡ some r) × IsBounded r
  action_parse_and_execute-IsBounded output a b = (
    run_all sv (commands (suc (length output)) output) a,
    action_parse_and_execute-commands sv output a,
    run_all-IsBounded _ a b,
  )
