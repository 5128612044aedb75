-- ===== src/Consciousness/Memory/Flush.antt =====
-- What a flush does to the entries, and what becomes of it on the drive of kernel/fs/fs.c.
use aion_os.Prelude.{
  ℕ, ◌+◌, ◌*◌, ◌≤◌, ◌≡◌, ◌≢◌, refl, ap, false, some, List, [], ◌∷◌, map, arith, ltb, ◌==◌, ne→==,
  inl, inr, length, Bool-cases, if◌then◌else◌,
}
use aion_os.Kernel.Drivers.Devices.{Fs, fs_files}
use aion_os.Consciousness.Text.{Text}
use aion_os.Consciousness.Memory.Disk.{Files, MemEntry, index_size, path_of, record_bytes}
use aion_os.Consciousness.Memory.Records.{clean}
use aion_os.Consciousness.Memory.{Store, flush_loop, aion_memory_flush, aion_memory_load_all}

module _ {W : Type 0} (files : Files W) (stack : ℕ → Text) where
  entries-flush_loop :
      (es : List MemEntry) (i : ℕ) (w : W) → (flush_loop files stack i es w).1 ≡ map clean es
  unfolding flush_loop
  entries-flush_loop [] i w = refl
  entries-flush_loop (e ∷ es) i w =
      let w' =
        if e.dirty then files.fs_write_file_usb (path_of e.type i) (record_bytes e) w else w in
      ap (λ t. clean e ∷ t) (entries-flush_loop es (i + 1) w')

module _ (stack : ℕ → Text) where
  disk-flush_loop : (es : List MemEntry) (i : ℕ) (w : Fs) → (flush_loop fs_files stack i es w).2 ≡ w
  unfolding flush_loop fs_files
  disk-flush_loop [] i w = refl
  disk-flush_loop (e ∷ es) i w = elim (Bool-cases e.dirty) [
    | inl dirty ↦ rw dirty (disk-flush_loop es (i + 1) w)
    | inr saved ↦ rw saved (disk-flush_loop es (i + 1) w)
  ]

  -- On that drive a flush with something to write, of entries for which the index buffer has room,
  -- marks every entry as saved and writes nothing; and a load adds no entry.
  pub aion_memory_flush-fs_files :
      (s : Store Fs)
      → s.mem_dirty ≢ 0
      → 8 + length s.entries * 256 ≤ index_size
      → (aion_memory_flush fs_files stack s
          ≡ some (record s { entries = map clean s.entries; mem_dirty = 0 }))
        × ((index buf : Text) (r : Store Fs) → aion_memory_load_all fs_files index buf r ≡ some r)
  unfolding aion_memory_flush aion_memory_load_all fs_files
  aion_memory_flush-fs_files s dirty room =
      let some_dirty : (s.mem_dirty == 0) ≡ false = ne→== s.mem_dirty 0 dirty in
      let inside : ltb index_size (8 + length s.entries * 256) ≡ false = ground arith in
      (
        rw (some_dirty, inside)
            (rw (
              entries-flush_loop fs_files stack s.entries 0 s.disk,
              disk-flush_loop s.entries 0 s.disk,
            )),
        λ index buf r. refl,
      )
