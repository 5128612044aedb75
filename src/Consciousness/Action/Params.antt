-- ===== src/Consciousness/Action/Params.antt =====
-- `parse_param_str` and `parse_param_int` of consciousness/core/action.c.
pub mod Laws
use aion_os.Prelude.{
  ℕ, ◌+◌, ◌-◌, ◌*◌, ◌%◌, ◌^◌, Bool, true, false, ◌&&◌, Option, none, some, List, [], ◌∷◌, ◌++◌, ltb,
  leb, if◌then◌else◌, length, take,
}
use aion_os.Consciousness.Text.{Text, codes, find_after, split_at}

-- The local `search[64]`, filled by `snprintf`, which keeps 63 bytes.
abbrev pub search_of : Text → Text → Text
search_of key suffix = take 63 (key ++ suffix)

-- The value of a string parameter, cut to a buffer of `out_sz` bytes with the terminator, or `none`
-- for `false`, where the caller's buffer is left alone.
unfoldable pub parse_param_str : Text → Text → ℕ → Option Text
parse_param_str token key out_sz = elim (find_after (search_of key (codes "=\"")) token) [
  | none ↦ none
  | some p ↦ elim (split_at b'"' p) [
    | none ↦ none
    | some (value, _) ↦ some (if leb out_sz (length value) then take (out_sz - 1) value else value)
  ]
]

abbrev pub is_digit : ℕ → Bool
is_digit c = leb b'0' c && leb c b'9'

-- `*out * 10 + d` on an `int64_t`, by its bit pattern. C leaves the result undefined where it is
-- 2 ^ 63 or more, and so from a negative `*out`, which only such a result gives: there it is whatever
-- `signed_overflow` says.
pub next_digit : (ℕ → ℕ → ℕ) → ℕ → ℕ → ℕ
next_digit signed_overflow out d =
    if ltb out (2 ^ 63) && ltb (out * 10 + d) (2 ^ 63) then out * 10 + d else signed_overflow out d

-- The loop over the digits.
pub digits_loop : (ℕ → ℕ → ℕ) → ℕ → Text → ℕ
unfolding next_digit
digits_loop signed_overflow out [] = out
digits_loop signed_overflow out (c ∷ s) =
    let rest = digits_loop signed_overflow (next_digit signed_overflow out (c - b'0')) s in
    if is_digit c then rest else out

-- `none` is `false`, where the caller's variable keeps its default.
pub parse_param_int : (ℕ → ℕ → ℕ) → Text → Text → Option ℕ
unfolding digits_loop
parse_param_int signed_overflow token key = elim (find_after (search_of key (codes "=")) token) [
  | none ↦ none
  | some p ↦ some (digits_loop signed_overflow 0 p)
]

-- `a < b` for `int64_t` patterns and a small `b`.
abbrev pub lt_signed : ℕ → ℕ → Bool
lt_signed a b = if ltb a (2 ^ 63) then ltb a b else true
