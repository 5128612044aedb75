-- ===== src/Consciousness/Memory/Paths.antt =====
-- The paths of the record files of consciousness/memory/aion_memory.c, compared to each other.
use aion_os.Prelude.{
  ℕ, zero, suc, ◌+◌, ◌-◌, ◌*◌, ◌/◌, ◌%◌, ◌^◌, ◌≤◌, ◌<◌, ◌≡◌, ◌≢◌, refl, sym, ap, ◌∙◌, ◌&&◌, [], ◌∷◌,
  ◌++◌, arith, inl, inr, leb, ◌==◌, if◌then◌else◌, length, get_or, length-append, Bool-cases,
}
use native.Mathlib.Nat.{pow-suc}
use aion_os.Consciousness.Text.{Text, codes, Lacks}
use aion_os.Consciousness.Memory.Disk.{
  mem_episodic, mem_self, mem_type_dir, to_decimal, path_of, index_path,
}

-- The number that the digits of a text spell, whatever stands between them, behind `acc`.
unfoldable pub number_in : ℕ → Text → ℕ
number_in acc [] = acc
number_in acc (c ∷ s) =
    number_in (if leb b'0' c && leb c b'9' then acc * 10 + (c - b'0') else acc) s

number_in-append : (s r : Text) (acc : ℕ) → number_in acc (s ++ r) ≡ number_in (number_in acc s) r
unfolding number_in
number_in-append [] r acc = refl
number_in-append (c ∷ s) r acc = number_in-append s r _

one_digit : (acc d : ℕ) → d < 10 → number_in acc ((d + b'0') ∷ []) ≡ acc * 10 + d
unfolding number_in
one_digit acc d h = ground arith

abbrev high_digits : ℕ → ℕ → Text
high_digits k n = if n / 10 == 0 then [] else to_decimal k (n / 10)

number_in-high :
    (k n : ℕ)
    → number_in 0 (to_decimal k (n / 10)) ≡ n / 10
    → number_in 0 (high_digits k n) ≡ n / 10
unfolding number_in
number_in-high k n h = elim (Bool-cases (n / 10 == 0)) [
  | inl e ↦ rw e (ground arith)
  | inr e ↦ rw e h
]

-- Decimal notation spells the number.
number_in-to_decimal : (k n : ℕ) → n < 10 ^ k → number_in 0 (to_decimal k n) ≡ n
unfolding to_decimal number_in
number_in-to_decimal zero n h = omega arith
number_in-to_decimal (suc k) n h =
    let below = number_in-to_decimal k (n / 10) (omega (arith, pow-suc 10 k)) in
    number_in-append (high_digits k n) ((n % 10 + b'0') ∷ []) 0
    ∙ ap (λ a. number_in a ((n % 10 + b'0') ∷ [])) (number_in-high k n below)
    ∙ one_digit (n / 10) (n % 10) (omega arith)
    ∙ omega arith

number_in-dir : (type : ℕ) → number_in 0 (mem_type_dir type) ≡ 0
unfolding mem_type_dir number_in
number_in-dir type = elim (Bool-cases (type == mem_episodic)) [
  | inl e ↦ rw e
  | inr e ↦ elim (Bool-cases (type == mem_self)) [ inl e' ↦ rw e (rw e') | inr e' ↦ rw e (rw e') ]
]

-- The path of an entry spells its index.
number_in-path_of : (type i : ℕ) → i < 2 ^ 64 → number_in 0 (path_of type i) ≡ i
unfolding path_of number_in
number_in-path_of type i h =
    number_in-append (mem_type_dir type) (to_decimal 20 i ++ codes ".mem") 0
    ∙ ap (λ a. number_in a (to_decimal 20 i ++ codes ".mem")) (number_in-dir type)
    ∙ number_in-append (to_decimal 20 i) (codes ".mem") 0
    ∙ number_in-to_decimal 20 i (omega arith)

-- Entries at different places have different paths, whatever their types.
pub path_of-ne :
    (type type' i j : ℕ) → i < 2 ^ 64 → j < 2 ^ 64 → i ≢ j → path_of type i ≢ path_of type' j
path_of-ne type type' i j hi hj ne e =
    ne (sym (number_in-path_of type i hi) ∙ ap (number_in 0) e ∙ number_in-path_of type' j hj)

-- Behind `/AION/memory/` the path of an entry goes on with `e` or `s`, that of the index with `i`.
pub path_of-ne-index_path : (type i : ℕ) → path_of type i ≢ index_path
unfolding path_of mem_type_dir
path_of-ne-index_path type i h = elim (Bool-cases (type == mem_episodic)) [
  | inl e ↦ absurd (omega (arith, ap (λ t. get_or t 13 0) (rw e at h)))
  | inr e ↦ elim (Bool-cases (type == mem_self)) [
    | inl e' ↦ absurd (omega (arith, ap (λ t. get_or t 13 0) (rw e' at (rw e at h))))
    | inr e' ↦ absurd (omega (arith, ap (λ t. get_or t 13 0) (rw e' at (rw e at h))))
  ]
]

length-to_decimal : (k n : ℕ) → length (to_decimal k n) ≤ k
unfolding to_decimal
length-to_decimal zero n = omega arith
length-to_decimal (suc k) n = elim (Bool-cases (n / 10 == 0)) [
  | inl e ↦ rw e (omega arith)
  | inr e ↦ rw e (
      omega (
        arith,
        length-append (to_decimal k (n / 10)) ((n % 10 + b'0') ∷ []),
        length-to_decimal k (n / 10),
      ))
]

length-dir : (type : ℕ) → length (mem_type_dir type) ≤ 24
unfolding mem_type_dir
length-dir type = elim (Bool-cases (type == mem_episodic)) [
  | inl e ↦ rw e (omega arith)
  | inr e ↦ elim (Bool-cases (type == mem_self)) [
    | inl e' ↦ rw e (rw e' (omega arith))
    | inr e' ↦ rw e (rw e' (omega arith))
  ]
]

-- `snprintf` has room for every path in 256 bytes.
pub length-path_of : (type i : ℕ) → length (path_of type i) ≤ 48
unfolding path_of
length-path_of type i = omega (
  arith,
  length-append (mem_type_dir type) (to_decimal 20 i ++ codes ".mem"),
  length-append (to_decimal 20 i) (codes ".mem"),
  length-to_decimal 20 i,
  length-dir type,
)

Lacks-append : (c : ℕ) (s r : Text) → Lacks c s → Lacks c r → Lacks c (s ++ r)
Lacks-append c [] r hs hr = hr
Lacks-append c (x ∷ s) r (h, hs) hr = (h, Lacks-append c s r hs hr)

Lacks-to_decimal : (k n : ℕ) → Lacks 0 (to_decimal k n)
unfolding to_decimal
Lacks-to_decimal zero n = tt
Lacks-to_decimal (suc k) n =
    let last : Lacks 0 ((n % 10 + b'0') ∷ []) = (λ e. omega arith, tt) in
    elim (Bool-cases (n / 10 == 0)) [
      | inl e ↦ rw e last
      | inr e ↦ rw e (Lacks-append 0 _ _ (Lacks-to_decimal k (n / 10)) last)
    ]

Lacks-dir : (type : ℕ) → Lacks 0 (mem_type_dir type)
unfolding mem_type_dir
Lacks-dir type = elim (Bool-cases (type == mem_episodic)) [
  | inl e ↦ rw e (omega arith)
  | inr e ↦ elim (Bool-cases (type == mem_self)) [
    | inl e' ↦ rw e (rw e' (omega arith))
    | inr e' ↦ rw e (rw e' (omega arith))
  ]
]

-- No path holds a zero byte.
pub Lacks-path_of : (type i : ℕ) → Lacks 0 (path_of type i)
unfolding path_of
Lacks-path_of type i =
    Lacks-append 0 (mem_type_dir type) _ (Lacks-dir type)
      (Lacks-append 0 (to_decimal 20 i) _ (Lacks-to_decimal 20 i) (omega arith))
