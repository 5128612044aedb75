-- ===== src/Consciousness/Memory/Records.antt =====
-- The record files of consciousness/memory/aion_memory.c, read by `aion_memory_load_all`.
use aion_os.Prelude.{
  ℕ, zero, suc, ◌+◌, ◌/◌, ◌^◌, ◌≤◌, ◌<◌, ◌≡◌, refl, ap, ◌∙◌, false, Option, List, [], ◌∷◌, ◌++◌,
  arith, length, take, drop,
}
use native.Mathlib.Nat.{pow-suc}
use aion_os.Kernel.Memory.Kmalloc.{Heap}
use aion_os.Kernel.Memory.Kmalloc.Blocks.{IsHeap, rounded}
use aion_os.Consciousness.Text.{Text}
use aion_os.Consciousness.Memory.Disk.{
  MemEntry, mem_magic, max_content_len, record_size, le, of_le, field, record_bytes,
}
use aion_os.Consciousness.Memory.{
  Store, mem_strdup, loaded_entry, add_copy, rejected, copy_content, load_record,
}
use aion_os.Consciousness.Memory.Recall.{mem_strdup-some}

-- A number is read back from its bytes.
pub of_le-le : (n x : ℕ) → x < 256 ^ n → of_le (le n x) ≡ x
unfolding le of_le
of_le-le zero x h = omega arith
of_le-le (suc n) x h = omega (arith, of_le-le n (x / 256) (omega (arith, pow-suc 256 n)))

pub length-le : (n x : ℕ) → length (le n x) ≡ n
unfolding le
length-le zero x = refl
length-le (suc n) x = ap suc (length-le n (x / 256))

-- The fields of an entry fit their places in the record.
pub record IsEntry (e : MemEntry) : Type 0 where
  pub type : e.type < 256
  pub importance : e.importance < 256
  pub tick : e.tick < 2 ^ 64
  pub content : length e.content ≤ max_content_len

abbrev pub clean : MemEntry → MemEntry
clean e = record e { dirty = false }

-- The parts of two lists in a row, by the length of the first.
pub take_first : {A : Type 0} (n : ℕ) (xs ys : List A) → length xs ≡ n → take n (xs ++ ys) ≡ xs
take_first zero [] ys e = refl
take_first zero (x ∷ xs) ys e = absurd (omega arith)
take_first (suc n) [] ys e = absurd (omega arith)
take_first (suc n) (x ∷ xs) ys e = ap (λ t. x ∷ t) (take_first n xs ys (omega arith))

pub drop_first : {A : Type 0} (n : ℕ) (xs ys : List A) → length xs ≡ n → drop n (xs ++ ys) ≡ ys
drop_first zero [] ys e = refl
drop_first zero (x ∷ xs) ys e = absurd (omega arith)
drop_first (suc n) [] ys e = absurd (omega arith)
drop_first (suc n) (x ∷ xs) ys e = drop_first n xs ys (omega arith)

module _ (e : MemEntry) (junk : Text) where
  content_field : field record_size (length e.content) (record_bytes e ++ junk) ≡ e.content
  unfolding record_bytes le
  content_field = take_first (length e.content) e.content junk refl

  magic_field : of_le (field 0 4 (record_bytes e ++ junk)) ≡ mem_magic
  unfolding record_bytes le of_le
  magic_field = refl

  length-field : IsEntry e → of_le (field 24 4 (record_bytes e ++ junk)) ≡ length e.content
  unfolding record_bytes le
  length-field v = of_le-le 4 (length e.content) (omega (arith, v.content))

  loaded : IsEntry e → loaded_entry (record_bytes e ++ junk) e.content ≡ clean e
  unfolding record_bytes le loaded_entry
  loaded v =
      rw (of_le-le 1 e.type v.type, loaded_entry)
        (rw (of_le-le 1 e.importance v.importance, loaded_entry)
          (rw (of_le-le 8 e.tick (omega (arith, v.tick)), loaded_entry)))

pub length-record_bytes : (e : MemEntry) → length (record_bytes e) ≡ record_size + length e.content
unfolding record_bytes le
length-record_bytes e = omega arith

rejected-record_bytes :
    (e : MemEntry) (junk : Text)
    → IsEntry e
    → rejected (length (record_bytes e)) (record_bytes e ++ junk) ≡ false
unfolding rejected
rejected-record_bytes e junk v =
    ground (arith, length-record_bytes e, magic_field e junk, length-field e junk v, v.content)

-- A round of the load that has read the record of an entry appends the entry, if the heap has room
-- for its content.
pub load_record-record_bytes :
    {W : Type 0} (e : MemEntry) (junk : Text) (s : Store W)
    → IsEntry e
    → IsHeap s.heap
    → s.heap.heap_ptr + rounded (length e.content + 1) ≤ s.heap.heap_end
    → load_record (length (record_bytes e)) (record_bytes e ++ junk) s ≡ record s {
      entries = s.entries ++ (clean e ∷ []);
      heap = record s.heap { heap_ptr = s.heap.heap_ptr + rounded (length e.content + 1) };
    }
unfolding load_record copy_content add_copy
load_record-record_bytes e junk s v h fits =
    let buf = record_bytes e ++ junk in
    let heap = record s.heap { heap_ptr = s.heap.heap_ptr + rounded (length e.content + 1) } in
    let copied = mem_strdup-some e.content h (omega (arith, v.content)) fits in
    rw (rejected-record_bytes e junk v) (
      ap (λ n. copy_content n buf s) (length-field e junk v)
      ∙ ap (λ t. add_copy (mem_strdup t s.heap).0 (mem_strdup t s.heap).1 buf s)
          (content_field e junk)
      ∙ ap (λ (c : Option Text × Heap). add_copy c.0 c.1 buf s) copied
      ∙ ap (λ l. record s { entries = s.entries ++ (l ∷ []); heap = heap }) (loaded e junk v))
