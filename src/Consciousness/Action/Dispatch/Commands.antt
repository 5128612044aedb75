-- ===== src/Consciousness/Action/Dispatch/Commands.antt =====
-- The scan of the model's output as a list of commands, and its termination.
use aion_os.Prelude.{
  ℕ, zero, suc, ◌<◌, ◌≡◌, none, some, List, [], ◌∷◌, arith, length, take, inl, inr, Option-cases,
}
use aion_os.Consciousness.Text.{Text, split_at, length-split_at}
use aion_os.Consciousness.Action.Handlers.{Services}
use aion_os.Consciousness.Action.Results.{Act}
use aion_os.Consciousness.Action.Dispatch.{
  Action, actions, first_match, run_action, scan, action_parse_and_execute,
}

-- The commands of a text, with their tokens: what the scan executes, without executing it.
unfoldable pub commands : ℕ → Text → List (Action × Text)
commands zero p = []
commands (suc fuel) p = elim (split_at b'<' p) [
  | none ↦ []
  | some (_, behind) ↦ elim (first_match actions behind) [
    | none ↦ commands fuel behind
    | some action ↦ elim (split_at b'>' behind) [
      | none ↦ commands fuel behind
      | some (token, rest) ↦ (action, take 2047 token) ∷ commands fuel rest
    ]
  ]
]

module _ {W : Type 0} (sv : Services W) where
  unfoldable pub run_all : List (Action × Text) → Act W → Act W
  run_all [] a = a
  run_all ((action, token) ∷ cs) a = run_all cs (run_action sv action token a)

  scan-commands :
      (fuel : ℕ) (p : Text) (a : Act W)
      → length p < fuel
      → scan sv fuel p a ≡ some (run_all (commands fuel p) a)
  unfolding scan commands run_all
  scan-commands zero p a h = absurd (omega arith)
  scan-commands (suc fuel) p a h = elim (Option-cases (split_at b'<' p)) [
    | inl e ↦ rw (e, scan, commands)
    | inr ((u, behind), e) ↦
        let short = length-split_at b'<' p u behind e in
        elim (Option-cases (first_match actions behind)) [
          | inl e' ↦
              rw (e, scan, commands)
                (rw (e', scan, commands) (scan-commands fuel behind a (omega (arith, short))))
          | inr (action, e') ↦ elim (Option-cases (split_at b'>' behind)) [
            | inl e'' ↦
                rw (e, scan, commands)
                  (rw (e', scan, commands)
                    (rw (e'', scan, commands) (scan-commands fuel behind a (omega (arith, short)))))
            | inr ((token, rest), e'') ↦
                rw (e, scan, commands)
                  (rw (e', scan, commands)
                    (rw (e'', scan, commands)
                      (scan-commands fuel rest _
                        (omega (arith, short, length-split_at b'>' behind token rest e'')))))
          ]
        ]
  ]

  pub action_parse_and_execute-commands :
      (output : Text) (a : Act W)
      → action_parse_and_execute sv output a
        ≡ some (run_all (commands (suc (length output)) output) a)
  unfolding action_parse_and_execute
  action_parse_and_execute-commands output a =
      scan-commands (suc (length output)) output a (omega arith)
