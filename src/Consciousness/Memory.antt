-- ===== src/Consciousness/Memory.antt =====
-- The persistent memory of consciousness/memory/aion_memory.c: the store in RAM, its eviction, and
-- the records and the index that it keeps on the USB drive.
pub mod Disk
pub mod Paths
pub mod Records
pub mod Index
pub mod Flush
pub mod Reload
pub mod Recall
pub mod Evict
mod Tests
use aion_os.Prelude.{
  ℕ, zero, suc, ◌+◌, ◌-◌, ◌*◌, ◌^◌, Bool, true, false, not, ◌&&◌, ◌||◌, Option, none, some, List,
  [], ◌∷◌, ◌++◌, ltb, leb, ◌==◌, if◌then◌else◌, length, take, drop, get_or, replicate,
}
use aion_os.Prelude.Words.{add64}
use aion_os.Kernel.Memory.Kmalloc.{Heap, kmalloc}
use aion_os.Consciousness.Text.{Text, codes, find_after, split_at}
use Disk.{
  Files, mem_episodic, mem_magic, max_content_len, record_size, index_size, index_path, MemEntry,
  path_of, record_bytes, path_field, of_le, field, c_str,
}

abbrev pub max_memories : ℕ
max_memories = 65536

-- What a caller hands to `aion_memory_store`.
pub record AionMemoryEntry : Type 0 where
  pub type : ℕ
  pub importance : ℕ
  pub tick : ℕ
  pub content : Text

-- The static variables, the heap that `kmalloc` serves, and the drive. The first `mem_count` entries
-- of `mem_store` are the list `entries`.
pub record Store (W : Type 0) : Type 0 where
  pub entries : List MemEntry
  pub mem_dirty : ℕ
  pub store_exists : Bool
  pub heap : Heap
  pub disk : W

-- The copy has the text's bytes; its address is not kept. `none` is a null pointer.
pub mem_strdup : Text → Heap → Option Text × Heap
mem_strdup s h = let (p, h') = kmalloc (length s + 1) h in (if p == 0 then none else some s, h')

-- One round of the search for the entry to evict, with `worst_imp` and `worst_idx`.
pub worst_loop : List MemEntry → ℕ → ℕ → ℕ → ℕ
worst_loop [] i imp idx = idx
worst_loop (e ∷ es) i imp idx =
    if (e.type == mem_episodic) && ltb e.importance imp
    then worst_loop es (i + 1) e.importance i
    else worst_loop es (i + 1) imp idx

-- The `memmove` that closes the gap.
pub remove_at : ℕ → List MemEntry → List MemEntry
remove_at i [] = []
remove_at zero (e ∷ es) = es
remove_at (suc i) (e ∷ es) = e ∷ remove_at i es

pub evict : List MemEntry → List MemEntry
unfolding worst_loop
evict es = if leb max_memories (length es) then remove_at (worst_loop es 0 255 0) es else es

-- The loop of `aion_memory_search`, from the newest entry back.
pub search_loop : Text → List MemEntry → Option Text
search_loop key [] = none
search_loop key (e ∷ es) = elim (search_loop key es) [
  | some newer ↦ some newer
  | none ↦ elim (find_after key (c_str e.content)) [ some _ ↦ some e.content | none ↦ none ]
]

pub aion_memory_search : {W : Type 0} → Text → Store W → Option Text
aion_memory_search key s = search_loop key s.entries

-- For an `n` that is not negative.
pub aion_memory_get_recent : {W : Type 0} → ℕ → Store W → List MemEntry
aion_memory_get_recent n s = take 16 (drop (length s.entries - n) s.entries)

-- The entry that a record file describes, with a copy of its content.
pub loaded_entry : Text → Text → MemEntry
loaded_entry buf content = record {
  type = of_le (field 4 1 buf);
  importance = of_le (field 5 1 buf);
  tick = of_le (field 8 8 buf);
  content = content;
  dirty = false;
}

pub add_copy : {W : Type 0} → Option Text → Heap → Text → Store W → Store W
add_copy none heap buf s = record s { heap = heap }
add_copy (some content) heap buf s = record s {
  entries = s.entries ++ (loaded_entry buf content ∷ []);
  heap = heap;
}

-- `n` bytes are no record: too few, another magic number, or a content too long.
pub rejected : ℕ → Text → Bool
rejected n buf =
    ltb n record_size
    || (not (of_le (field 0 4 buf) == mem_magic) || ltb max_content_len (of_le (field 24 4 buf)))

pub copy_content : {W : Type 0} → ℕ → Text → Store W → Store W
copy_content clen buf s =
    let (copy, heap) = mem_strdup (field record_size clen buf) s.heap in add_copy copy heap buf s

-- The rest of a round of `aion_memory_load_all`, after the read of `n` bytes into `record_buf`.
pub load_record : {W : Type 0} → ℕ → Text → Store W → Store W
load_record n buf s = if rejected n buf then s else copy_content (of_le (field 24 4 buf)) buf s

module _ {W : Type 0} (files : Files W) where
  pub aion_memory_has_store : W → Bool
  aion_memory_has_store = files.fs_file_exists index_path

  pub aion_memory_init : Store W → Store W
  unfolding aion_memory_has_store
  aion_memory_init s =
      let mkdir = files.fs_mkdir_usb in
      let w = mkdir (codes "/AION/memory/self") (
        mkdir (codes "/AION/memory/semantic")
          (mkdir (codes "/AION/memory/episodic") (mkdir (codes "/AION/memory") s.disk))) in
      record s { entries = []; mem_dirty = 0; store_exists = aion_memory_has_store w; disk = w }

  -- The loop of `aion_memory_flush`, from entry `i` on: what it appends to the index, the entries,
  -- and the drive. `stack i` is what the array `path` holds before round `i`.
  pub flush_loop : (ℕ → Text) → ℕ → List MemEntry → W → Text × List MemEntry × W
  flush_loop stack i [] w = ([], [], w)
  flush_loop stack i (e ∷ es) w =
      let path = path_of e.type i in
      let w' = if e.dirty then files.fs_write_file_usb path (record_bytes e) w else w in
      let (index, es', w'') = flush_loop stack (i + 1) es w' in
      (path_field (stack i) path e.importance ++ index, record e { dirty = false } ∷ es', w'')

  -- `none` is a write past the end of `index_buf`.
  pub aion_memory_flush : (ℕ → Text) → Store W → Option (Store W)
  unfolding flush_loop
  aion_memory_flush stack s =
      if s.mem_dirty == 0
      then some s
      else if ltb index_size (8 + length s.entries * 256)
      then none
      else let (index, es, w) = flush_loop stack 0 s.entries s.disk in
        some (record s {
          entries = es;
          mem_dirty = 0;
          disk = files.fs_write_file_usb index_path (Disk.le 8 (length s.entries) ++ index) w;
        })

  -- `aion_memory_store` from the copy of the content on.
  pub add_entry : (ℕ → Text) → AionMemoryEntry → Option Text → Heap → Store W → Option (Store W)
  add_entry stack entry none heap s = some (record s { heap = heap })
  add_entry stack entry (some content) heap s =
      let e : MemEntry = record {
        type = entry.type;
        importance = entry.importance;
        tick = entry.tick;
        content = content;
        dirty = true;
      } in
      let s' = record s {
        entries = s.entries ++ (e ∷ []);
        mem_dirty = add64 s.mem_dirty 1;
        heap = heap;
      } in
      if leb 10 s'.mem_dirty then aion_memory_flush stack s' else some s'

  -- `aion_memory_store` after the eviction.
  pub append_entry : (ℕ → Text) → AionMemoryEntry → Store W → Option (Store W)
  append_entry stack entry s =
      let (copy, heap) = mem_strdup (take max_content_len entry.content) s.heap in
      add_entry stack entry copy heap s

  pub aion_memory_store : (ℕ → Text) → AionMemoryEntry → Store W → Option (Store W)
  aion_memory_store stack entry s =
      append_entry stack entry (record s { entries = evict s.entries })

  -- One round of `aion_memory_load_all`, on the 256 bytes of its index entry. `buf` is `record_buf`,
  -- which keeps what earlier rounds left behind the bytes that this one reads.
  pub load_round : Text → Text → Store W → Text × Store W
  load_round entry buf s =
      let path = c_str (take 255 entry) in
      elim (files.fs_read_file path (max_content_len + record_size) s.disk) [
        | none ↦ (buf, s)
        | some bytes ↦
            let buf' = bytes ++ drop (length bytes) buf in (buf', load_record (length bytes) buf' s)
      ]

  pub load_loop : ℕ → Text → Text → Store W → Store W
  load_loop zero p buf s = s
  load_loop (suc n) p buf s =
      let (buf', s') = load_round (take 256 p) buf s in load_loop n (drop 256 p) buf' s'

  -- `index` and `buf` are what `index_buf` and `record_buf` hold before the call. `none` is a read
  -- past the end of `index_buf`.
  pub aion_memory_load_all : Text → Text → Store W → Option (Store W)
  aion_memory_load_all index buf s = elim (files.fs_read_file index_path index_size s.disk) [
    | none ↦ some s
    | some bytes ↦
        let index' = bytes ++ drop (length bytes) index in
        let count = of_le (take 8 index') in
        let n = if ltb max_memories count then max_memories else count in
        if ltb index_size (8 + n * 256) then none else some (load_loop n (drop 8 index') buf s)
  ]
