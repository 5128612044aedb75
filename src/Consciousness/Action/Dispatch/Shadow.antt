-- ===== src/Consciousness/Action/Dispatch/Shadow.antt =====
-- Which commands a text can give: the table is searched in order, and a name matches as a prefix.
use aion_os.Prelude.{
  ℕ, zero, suc, ◌<◌, ◌≡◌, ◌≢◌, none, some, List, [], ◌∷◌, ◌++◌, arith, length, length-take, inl,
  inr, Option-cases,
}
use aion_os.Consciousness.Text.{Text, codes, strip_prefix, strip_prefix-shorter, split_at}
use aion_os.Consciousness.Action.Dispatch.{
  Action, display, display_pixel, display_clear, actions, first_match, action_parse_and_execute,
}
use aion_os.Consciousness.Action.Handlers.{Services}
use aion_os.Consciousness.Action.Results.{Act}
use aion_os.Consciousness.Action.Dispatch.Commands.{
  commands, run_all, action_parse_and_execute-commands,
}

hidden : (p q s : Text) → strip_prefix p s ≡ none → strip_prefix (p ++ q) s ≡ none
hidden p q s h = elim (Option-cases (strip_prefix (p ++ q) s)) [
  | inl e ↦ e
  | inr (r, e) ↦ cc (strip_prefix-shorter p q s r e)
]

-- Of the table the entries two and three are never chosen: their names begin with that of the first.
pub first_match-ne :
    (s : Text) {a : Action}
    → first_match actions s ≡ some a
    → (a ≢ display_pixel) × (a ≢ display_clear)
unfolding first_match actions
first_match-ne s {a} h =
    let pixel = hidden (codes "ACT:DISPLAY") (codes "_PIXEL") s in
    let clear = hidden (codes "ACT:DISPLAY") (codes "_CLEAR") s in
    (ground (arith, pixel, clear), ground (arith, pixel, clear))

-- A text that spells either name is taken for `ACT:DISPLAY`.
pub first_match-display :
    (q s r : Text)
    → strip_prefix (codes "ACT:DISPLAY" ++ q) s ≡ some r
    → first_match actions s ≡ some display
unfolding first_match actions
first_match-display q s r h = rw (strip_prefix-shorter (codes "ACT:DISPLAY") q s r h, first_match)

-- Every command satisfies `P`.
abbrev pub Every : (Action × Text → Type 0) → List (Action × Text) → Type 0
Every P [] = Unit
Every P (c ∷ cs) = P c × Every P cs

-- What holds of the commands of every text.
pub record IsPossible (c : Action × Text) : Type 0 where
  pub no_pixel : c.0 ≢ display_pixel
  pub no_clear : c.0 ≢ display_clear
  pub short : length c.1 < 2048

pub commands-IsPossible : (fuel : ℕ) (p : Text) → Every IsPossible (commands fuel p)
unfolding commands
commands-IsPossible zero p = tt
commands-IsPossible (suc fuel) p = elim (Option-cases (split_at b'<' p)) [
  | inl e ↦ rw (e, commands) tt
  | inr ((u, behind), e) ↦
      rw (e, commands)
        (elim (Option-cases (first_match actions behind)) [
          | inl e' ↦ rw (e', commands) (commands-IsPossible fuel behind)
          | inr (action, e') ↦
              rw (e', commands)
                (elim (Option-cases (split_at b'>' behind)) [
                  | inl e'' ↦ rw (e'', commands) (commands-IsPossible fuel behind)
                  | inr ((token, rest), e'') ↦
                      let (no_pixel, no_clear) = first_match-ne behind e' in
                      rw (e'', commands)
                        (
                          record {
                            no_pixel = no_pixel;
                            no_clear = no_clear;
                            short = omega (arith, length-take 2047 token);
                          },
                          commands-IsPossible fuel rest,
                        )
                ])
        ])
]

module _ {W : Type 0} (sv : Services W) where
  -- No output of the model, whatever it spells, runs `act_display_pixel` or `act_display_clear`:
  -- executing it is running a list of other commands, each with a token that fits `token_buf` with
  -- its terminator.
  pub action_parse_and_execute-IsPossible :
      (output : Text) (a : Act W)
      → (cs : List (Action × Text)) × Every IsPossible cs
        × (action_parse_and_execute sv output a ≡ some (run_all sv cs a))
  action_parse_and_execute-IsPossible output a = (
    commands (suc (length output)) output,
    commands-IsPossible (suc (length output)) output,
    action_parse_and_execute-commands sv output a,
  )
