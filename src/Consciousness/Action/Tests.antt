-- ===== src/Consciousness/Action/Tests.antt =====
-- The dispatch of actions over services that record nothing but the last write.
use aion_os.Prelude.{
  ℕ, ◌+◌, ◌*◌, ◌≤◌, ◌≡◌, ◌⊎◌, refl, false, some, none, List, [], ◌∷◌, ◌++◌, map, take, arith,
}
use aion_os.Consciousness.Text.{Text, codes, strip_prefix}
use aion_os.Consciousness.Action.Params.{parse_param_str, parse_param_int}
use aion_os.Consciousness.Action.Params.Laws.{
  FirstAt, value_of, parse_param_str-value, parse_param_int-value,
}
use aion_os.Consciousness.Action.Results.{Act}
use aion_os.Consciousness.Action.Results.Kept.{IsBounded}
use aion_os.Consciousness.Action.Handlers.{Services, act_file_write, act_cpu_freq_set}
use aion_os.Consciousness.Action.Handlers.Guards.{
  IsConfined, act_file_write-IsConfined, act_cpu_freq_set-ratio,
}
use aion_os.Consciousness.Action.Dispatch.{Action, action_parse_and_execute}
use aion_os.Consciousness.Action.Dispatch.Bounded.{action_parse_and_execute-IsBounded}
use aion_os.Consciousness.Action.Dispatch.Commands.{run_all}
use aion_os.Consciousness.Action.Dispatch.Shadow.{
  Every, IsPossible, action_parse_and_execute-IsPossible,
}

-- The machine is what was written last.
abbrev machine : Services Text
machine = record {
  display_print_string = λ text color w. text;
  display_set_pixel = λ x y color w. w;
  display_clear = λ w. [];
  audio_play_tone = λ hz ms volume w. w;
  audio_play_pcm = λ samples rate channels w. samples;
  audio_stop = λ w. w;
  aion_memory_store = λ entry w. entry.content;
  memory_found = λ key w. false;
  fs_read_fails = λ path size w. false;
  fs_write_file_usb = λ path contents w. contents;
  http_get_fails = λ url size w. false;
  wrmsr = λ register value w. value ∷ [];
  signed_overflow = λ out d. 0;
}

abbrev idle : Act Text
idle = record { results = []; world = [] }

idle-IsBounded : IsBounded idle
idle-IsBounded = record { few = omega arith; short = tt }

abbrev output : Text
output = codes "I say <ACT:DISPLAY text=\"hi\"> and <ACT:FILE_WRITE path=\"/a\" data=\"b\">."

-- Nothing that begins in the one byte `A` reads `key`.
after_letter :
    (pat r : Text) → strip_prefix pat (codes "A" ++ (pat ++ r)) ≡ none → FirstAt pat (codes "A") r
after_letter pat r h [] [] e ne = cc
after_letter pat r h [] (c ∷ []) e ne = let same : c ≡ b'A' = cc in rw same h
after_letter pat r h [] (c ∷ d ∷ y) e ne = cc
after_letter pat r h (c ∷ []) [] e ne = absurd (ne refl)
after_letter pat r h (c ∷ []) (d ∷ y) e ne = cc
after_letter pat r h (c ∷ d ∷ x) y e ne = cc

parse_param_str-value_example :
    parse_param_str
      (codes "A" ++ ((codes "text" ++ codes "=\"") ++ (codes "hello" ++ codes "\"")))
      (codes "text")
      512
    ≡ some (take 511 (codes "hello"))
unfolding strip_prefix
parse_param_str-value_example =
    parse_param_str-value (codes "A") (codes "text") (codes "hello") [] 512 (omega arith)
      (omega arith) (omega arith)
      (after_letter (codes "text" ++ codes "=\"") (codes "hello" ++ codes "\"") refl)

abbrev digits : List ℕ
digits = 4 ∷ 2 ∷ []

parse_param_int-value_example :
    parse_param_int
      (λ out d. 0)
      (codes "A" ++ ((codes "ms" ++ codes "=") ++ (map (λ d. d + b'0') digits ++ codes " ")))
      (codes "ms")
    ≡ some (value_of digits)
unfolding strip_prefix
parse_param_int-value_example =
    parse_param_int-value (λ out d. 0) (codes "A") (codes "ms") digits (codes " ") (omega arith)
      (omega arith) refl (omega arith)
      (after_letter (codes "ms" ++ codes "=") (map (λ d. d + b'0') digits ++ codes " ") refl)

action_parse_and_execute-IsBounded_example :
    (r : Act Text) × (action_parse_and_execute machine output idle ≡ some r) × IsBounded r
action_parse_and_execute-IsBounded_example =
    action_parse_and_execute-IsBounded machine output idle idle-IsBounded

action_parse_and_execute-IsPossible_example :
    (cs : List (Action × Text)) × Every IsPossible cs
    × (action_parse_and_execute machine output idle ≡ some (run_all machine cs idle))
action_parse_and_execute-IsPossible_example =
    action_parse_and_execute-IsPossible machine output idle

act_file_write-IsConfined_example :
    let a = act_file_write machine (codes "path=\"/../b\" data=\"c\"") idle in
    (a.world ≡ []) ⊎ ((path : Text) × (contents : Text) × IsConfined path × (a.world ≡ contents))
act_file_write-IsConfined_example =
    act_file_write-IsConfined machine (codes "path=\"/../b\" data=\"c\"") idle

act_cpu_freq_set-ratio_example :
    (ratio : ℕ) × (4 ≤ ratio)
    × (ratio ≤ 34)
    × ((act_cpu_freq_set machine (codes "mhz=9000") idle).world ≡ ratio * 256 ∷ [])
act_cpu_freq_set-ratio_example = act_cpu_freq_set-ratio machine (codes "mhz=9000") idle
