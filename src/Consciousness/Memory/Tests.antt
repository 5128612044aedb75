-- ===== src/Consciousness/Memory/Tests.antt =====
-- The memory on the drive of kernel/fs/fs.c, which keeps nothing.
use aion_os.Prelude.{ℕ, ◌≡◌, refl, true, false, some, List, [], ◌∷◌, arith, replicate}
use aion_os.Kernel.Drivers.Devices.{Fs, fs_files}
use aion_os.Kernel.Memory.Kmalloc.{Heap}
use aion_os.Kernel.Memory.Kmalloc.Blocks.{IsHeap}
use aion_os.Consciousness.Text.{Text, codes, split_at}
use aion_os.Consciousness.Memory.Disk.{MemEntry}
use aion_os.Consciousness.Memory.Recall.{Found, aion_memory_search-Found, aion_memory_search-store}
use aion_os.Consciousness.Memory.{AionMemoryEntry, Store, aion_memory_search, aion_memory_store}

abbrev free_heap : Heap
free_heap = record { heap_ptr = 0x20_0010; heap_end = 0x20_4000 }

free_heap-IsHeap : IsHeap free_heap
free_heap-IsHeap = omega arith

abbrev entry : Text → MemEntry
entry text = record { type = 1; importance = 9; tick = 70000; content = text; dirty = true }

abbrev two : List MemEntry
two = entry (codes "light: warm") ∷ record (entry (codes "dark")) { type = 0 } ∷ []

abbrev store : Store Fs
store = record {
  entries = two;
  mem_dirty = 2;
  store_exists = false;
  heap = free_heap;
  disk = record { usb_ready = true; ssd_ready = true };
}

-- The array `path` before it is written.
abbrev stack : ℕ → Text
stack i = replicate 256 165

aion_memory_search-Found_example :
    Found (codes "light") two (aion_memory_search (codes "light") store)
aion_memory_search-Found_example = aion_memory_search-Found (codes "light") store

abbrev thought : AionMemoryEntry
thought = record { type = 1; importance = 1; tick = 0; content = codes "sound: loud" }

aion_memory_search-store_example :
    (t : Store Fs) × (aion_memory_store fs_files stack thought store ≡ some t)
    × (aion_memory_search (codes "sound") t ≡ some (codes "sound: loud"))
unfolding split_at
aion_memory_search-store_example =
    aion_memory_search-store fs_files stack (codes "sound") thought store (omega arith)
      free_heap-IsHeap (omega arith) ([], codes ": loud", refl)
