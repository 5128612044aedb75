-- ===== src/Consciousness/Text.antt =====
-- C strings as the list of their bytes before the terminator, and the functions of <string.h> that
-- consciousness/ calls on them.
use Prim.Native.Char.{code}
use Prim.Native.String.{String}
use aion_os.Prelude.{
  ℕ, ◌+◌, ◌<◌, ◌≡◌, ◌≢◌, ◌↔◌, refl, ap, Option, none, some, List, [], ◌∷◌, ◌++◌, inl, inr, arith,
  ◌==◌, ==_iff, if◌then◌else◌, length, length-append, ne→==, Bool-cases, Option-cases,
}

abbrev pub Text : Type 0
Text = List ℕ

-- The bytes of an ASCII literal.
abbrev pub codes : String → Text
codes String.[] = []
codes (String.◌∷◌ c s) = code c ∷ codes s

-- `strncmp(s, pat, strlen(pat)) == 0`, with what follows the prefix.
unfoldable pub strip_prefix : Text → Text → Option Text
strip_prefix [] s = some s
strip_prefix (p ∷ pat) [] = none
strip_prefix (p ∷ pat) (c ∷ s) = let rest = strip_prefix pat s in if p == c then rest else none

-- `strstr(s, pat)`, with what follows the first occurrence.
unfoldable pub find_after : Text → Text → Option Text
unfolding strip_prefix
find_after pat [] = strip_prefix pat []
find_after pat (c ∷ s) = elim (strip_prefix pat (c ∷ s)) [
  | some rest ↦ some rest
  | none ↦ find_after pat s
]

-- `strchr(s, c)`, with what stands before and behind the first occurrence.
unfoldable pub split_at : ℕ → Text → Option (Text × Text)
split_at c [] = none
split_at c (x ∷ s) =
    if x == c
    then some ([], s)
    else elim (split_at c s) [ none ↦ none | some (before, behind) ↦ some (x ∷ before, behind) ]

-- What `strip_prefix` finds is the prefix, and it finds every prefix.
pub strip_prefix-append : (pat r : Text) → strip_prefix pat (pat ++ r) ≡ some r
unfolding strip_prefix
strip_prefix-append [] r = refl
strip_prefix-append (p ∷ pat) r = rw ((==_iff p p).1 refl) (strip_prefix-append pat r)

pub strip_prefix-some : (pat s r : Text) → strip_prefix pat s ≡ some r → s ≡ pat ++ r
unfolding strip_prefix
strip_prefix-some [] s r h = ground arith
strip_prefix-some (p ∷ pat) [] r h = cc
strip_prefix-some (p ∷ pat) (c ∷ s) r h = ground (arith, ==_iff p c, strip_prefix-some pat s r)

-- A prefix of a prefix is found too.
pub strip_prefix-shorter :
    (p q s r : Text) → strip_prefix (p ++ q) s ≡ some r → strip_prefix p s ≡ some (q ++ r)
unfolding strip_prefix
strip_prefix-shorter [] q s r h = ap some (strip_prefix-some q s r h)
strip_prefix-shorter (c ∷ p) q [] r h = cc
strip_prefix-shorter (c ∷ p) q (d ∷ s) r h = ground (arith, strip_prefix-shorter p q s r)

-- `pat` occurs in the text, somewhere.
abbrev pub Occurs : Text → Text → Type 0
Occurs pat s = (a : Text) × (b : Text) × (s ≡ a ++ (pat ++ b))

pub find_after-some :
    (pat s r : Text) → find_after pat s ≡ some r → (a : Text) × (s ≡ a ++ (pat ++ r))
unfolding find_after
find_after-some pat [] r h = ([], strip_prefix-some pat [] r h)
find_after-some pat (c ∷ s) r h = elim (Option-cases (strip_prefix pat (c ∷ s))) [
  | inl e ↦ let (a, eq) = find_after-some pat s r (ground arith) in (c ∷ a, ap (λ t. c ∷ t) eq)
  | inr (t, e) ↦ ([], strip_prefix-some pat (c ∷ s) r (ground arith))
]

find_after-prefix : (pat s r : Text) → strip_prefix pat s ≡ some r → find_after pat s ≡ some r
unfolding find_after
find_after-prefix pat [] r h = h
find_after-prefix pat (c ∷ s) r h = rw (h, find_after)

find_after-total : (pat a b : Text) → (r : Text) × (find_after pat (a ++ (pat ++ b)) ≡ some r)
unfolding find_after
find_after-total pat [] b = (b, find_after-prefix pat (pat ++ b) b (strip_prefix-append pat b))
find_after-total pat (x ∷ a) b = elim (Option-cases (strip_prefix pat (x ∷ (a ++ (pat ++ b))))) [
  | inl e ↦ let (r, eq) = find_after-total pat a b in (r, rw (e, find_after) eq)
  | inr (t, e) ↦ (t, rw (e, find_after))
]

-- `strstr` returns null exactly if the pattern does not occur.
pub find_after-none : (pat s : Text) → (find_after pat s ≡ none) ↔ (¬ Occurs pat s)
find_after-none pat s = (
  λ h (a, b, e). let (r, eq) = find_after-total pat a b in cc (ap (find_after pat) e),
  λ h. elim (Option-cases (find_after pat s)) [
    | inl e ↦ e
    | inr (r, e) ↦ let (a, eq) = find_after-some pat s r e in absurd (h (a, r, eq))
  ],
)

-- Where the pattern has no earlier occurrence, that is, none that begins in `a`.
pub find_after-first :
    (pat a r : Text)
    → ((x y : Text) → a ≡ x ++ y → y ≢ [] → strip_prefix pat (y ++ (pat ++ r)) ≡ none)
    → find_after pat (a ++ (pat ++ r)) ≡ some r
unfolding find_after
find_after-first pat [] r h = find_after-prefix pat (pat ++ r) r (strip_prefix-append pat r)
find_after-first pat (x ∷ a) r h =
    rw (h [] (x ∷ a) refl (λ e. cc), find_after)
      (find_after-first pat a r λ u v e ne. h (x ∷ u) v (ap (λ t. x ∷ t) e) ne)

pub split_at-some : (c : ℕ) (s a b : Text) → split_at c s ≡ some (a, b) → s ≡ a ++ (c ∷ b)
unfolding split_at
split_at-some c [] a b h = cc
split_at-some c (x ∷ s) a b h = elim (Bool-cases (x == c)) [
  | inl e ↦ ground (arith, ==_iff x c)
  | inr e ↦ elim (Option-cases (split_at c s)) [
    | inl none_left ↦ cc
    | inr ((u, v), found) ↦ ground (arith, split_at-some c s u v found)
  ]
]

-- The text has no byte `c`.
abbrev pub Lacks : ℕ → Text → Type 0
Lacks c [] = Unit
Lacks c (x ∷ s) = (x ≢ c) × Lacks c s

pub split_at-append : (c : ℕ) (v r : Text) → Lacks c v → split_at c (v ++ (c ∷ r)) ≡ some (v, r)
unfolding split_at
split_at-append c [] r h = rw ((==_iff c c).1 refl)
split_at-append c (x ∷ v) r (ne, h) = rw (ne→== x c ne, split_at-append c v r h)

-- What stands behind the byte is shorter.
pub length-split_at :
    (c : ℕ) (s a b : Text) → split_at c s ≡ some (a, b) → length a + length b < length s
length-split_at c s a b h =
    omega (arith, ap length (split_at-some c s a b h), length-append a (c ∷ b))
