-- ===== src/Consciousness/Memory/Index.antt =====
-- The index entries of consciousness/memory/aion_memory.c: their length, and the path read from them.
use aion_os.Prelude.{
  ℕ, suc, ◌+◌, ◌-◌, ◌≤◌, ◌≡◌, ap, ◌∙◌, [], ◌∷◌, ◌++◌, arith, length, take, drop, length-append,
  length-take, length-drop, take-append,
}
use aion_os.Consciousness.Text.{Text, Lacks, split_at-append}
use aion_os.Consciousness.Memory.Disk.{c_str, path_field}
use aion_os.Consciousness.Memory.Records.{take_first}

module _ (old path : Text) (importance : ℕ) (full : length old ≡ 256)
    (short : length path ≤ 48) where
  -- The 255 bytes that are copied, and how they begin.
  abbrev copied : Text
  copied = take 255 (path ++ (0 ∷ drop (length path + 1) old))

  length-copied : length copied ≡ 255
  length-copied = omega (
    arith,
    full,
    short,
    length-take 255 (path ++ (0 ∷ drop (length path + 1) old)),
    length-append path (0 ∷ drop (length path + 1) old),
    length-drop (length path + 1) old,
  )

  pub length-path_field : length (path_field old path importance) ≡ 256
  unfolding path_field
  length-path_field = omega (arith, length-append copied (importance ∷ []), length-copied)

  begins : copied ≡ path ++ (0 ∷ take (254 - length path) (drop (length path + 1) old))
  begins =
      let split : 255 ≡ length path + suc (254 - length path) = omega arith in
      ap (λ n. take n (path ++ (0 ∷ drop (length path + 1) old))) split
      ∙ take-append (suc (254 - length path)) path (0 ∷ drop (length path + 1) old)

  pub c_str-path_field : Lacks 0 path → c_str (take 255 (path_field old path importance)) ≡ path
  unfolding path_field
  c_str-path_field lacks =
      ap c_str (take_first 255 copied (importance ∷ []) length-copied ∙ begins)
      ∙ rw (split_at-append 0 path _ lacks, c_str)
