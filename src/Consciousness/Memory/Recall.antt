-- ===== src/Consciousness/Memory/Recall.antt =====
-- What the search and the list of recent entries return, and that a stored entry is found.
use aion_os.Prelude.{
  ℕ, ◌+◌, ◌-◌, ◌*◌, ◌^◌, ◌≤◌, ◌<◌, ◌≡◌, ◌≢◌, ◌↔◌, refl, sym, ap, ◌∙◌, inl, inr, true, false, Option,
  none, some, List, [], ◌∷◌, ◌++◌, arith, ltb, leb, ◌==◌, length, take, drop, take-append-drop,
  length-take, length-drop, length-append, Bool-cases, Option-cases, min,
}
use aion_os.Prelude.Words.{add64}
use aion_os.Kernel.Memory.Kmalloc.{Heap}
use aion_os.Kernel.Memory.Kmalloc.Blocks.{IsHeap, rounded, taken}
use aion_os.Consciousness.Text.{Text, find_after, Occurs, find_after-none, find_after-some}
use aion_os.Consciousness.Memory.Disk.{Files, MemEntry, c_str, max_content_len, index_size}
use aion_os.Consciousness.Memory.{
  AionMemoryEntry, Store, mem_strdup, search_loop, aion_memory_search, aion_memory_get_recent,
  flush_loop, aion_memory_flush, add_entry, append_entry, aion_memory_store,
}
use aion_os.Consciousness.Memory.Evict.{evict-room}

-- The entry's text holds the key.
abbrev pub Holds : Text → MemEntry → Type 0
Holds key e = Occurs key (c_str e.content)

abbrev pub NoneHolds : Text → List MemEntry → Type 0
NoneHolds key [] = Unit
NoneHolds key (e ∷ es) = (¬ Holds key e) × NoneHolds key es

-- The outcome of a search: nothing, if no entry holds the key, or the content of the newest entry that
-- holds it.
pub data Found (key : Text) (es : List MemEntry) : Option Text → Type 0 where
  not_found : NoneHolds key es → Found key es none
  newest :
      (older : List MemEntry) (e : MemEntry) (newer : List MemEntry)
      → es ≡ older ++ (e ∷ newer)
      → Holds key e
      → NoneHolds key newer
      → Found key es (some e.content)

holds : (key s r : Text) → find_after key s ≡ some r → Occurs key s
holds key s r h = let (a, e) = find_after-some key s r h in (a, r, e)

one_more :
    (key : Text) (e : MemEntry) (es : List MemEntry) (r : Option Text)
    → search_loop key es ≡ r
    → Found key es r
    → Found key (e ∷ es) (search_loop key (e ∷ es))
unfolding search_loop
one_more key e es r eq (newest older e' newer split h rest) =
    rw (eq, search_loop) (newest (e ∷ older) e' newer (ap (λ t. e ∷ t) split) h rest)
one_more key e es r eq (not_found rest) = elim (Option-cases (find_after key (c_str e.content))) [
  | inl absent ↦
      rw (eq, search_loop)
        (rw (absent, search_loop) (not_found ((find_after-none _ _).0 absent, rest)))
  | inr (t, present) ↦
      rw (eq, search_loop)
        (rw (present, search_loop) (newest [] e es refl (holds key _ t present) rest))
]

search_loop-Found : (key : Text) (es : List MemEntry) → Found key es (search_loop key es)
unfolding search_loop
search_loop-Found key [] = not_found tt
search_loop-Found key (e ∷ es) = one_more key e es _ refl (search_loop-Found key es)

-- The search finds the newest entry whose text holds the key, and fails exactly where none does.
pub aion_memory_search-Found :
    {W : Type 0} (key : Text) (s : Store W) → Found key s.entries (aion_memory_search key s)
unfolding aion_memory_search
aion_memory_search-Found key s = search_loop-Found key s.entries

-- The list of recent entries is the first 16 of the last `n`.
pub aion_memory_get_recent-Latest :
    {W : Type 0} (n : ℕ) (s : Store W)
    → let recent = aion_memory_get_recent n s in
      (older : List MemEntry) × (rest : List MemEntry) × (s.entries ≡ older ++ (recent ++ rest))
      × (length older ≡ length s.entries - n)
      × (length recent ≡ min 16 (min n (length s.entries)))
unfolding aion_memory_get_recent
aion_memory_get_recent-Latest n s =
    let k = length s.entries - n in
    let last = drop k s.entries in
    (
      take k s.entries,
      drop 16 last,
      sym (
          ap (λ t. take k s.entries ++ t) (take-append-drop 16 last)
          ∙ take-append-drop k s.entries),
      omega (arith, length-take k s.entries),
      omega (arith, length-take 16 last, length-drop k s.entries),
    )

search_loop-last :
    (key : Text) (es : List MemEntry) (e : MemEntry)
    → Holds key e
    → search_loop key (es ++ (e ∷ [])) ≡ some e.content
unfolding search_loop
search_loop-last key [] e h = elim (Option-cases (find_after key (c_str e.content))) [
  | inl absent ↦ absurd ((find_after-none _ _).0 absent h)
  | inr (t, present) ↦ rw (present, search_loop)
]
search_loop-last key (x ∷ es) e h = rw (search_loop-last key es e h, search_loop)

-- A search reads neither the dirty marks nor the drive.
search_loop-flush :
    {W : Type 0} (files : Files W) (key : Text) (stack : ℕ → Text) (i : ℕ) (es : List MemEntry)
    (w : W)
    → search_loop key (flush_loop files stack i es w).1 ≡ search_loop key es
unfolding search_loop flush_loop
search_loop-flush files key stack i [] w = refl
search_loop-flush files key stack i (e ∷ es) w = rw (search_loop-flush files key stack (i + 1) es _)

-- A copy that the heap has room for succeeds.
pub mem_strdup-some :
    (s : Text) {h : Heap}
    → IsHeap h
    → length s + 1 < 2 ^ 31
    → h.heap_ptr + rounded (length s + 1) ≤ h.heap_end
    → mem_strdup s h ≡ (some s, record h { heap_ptr = h.heap_ptr + rounded (length s + 1) })
unfolding mem_strdup
mem_strdup-some s {h} v small fits =
    let not_null : (h.heap_ptr == 0) ≡ false = ground (arith, v.start) in
    rw (taken (length s + 1) v small fits) (rw not_null)

module _ {W : Type 0} (files : Files W) (stack : ℕ → Text) where
  -- A flush fails exactly if there is something to write and more than 4095 entries: then it writes
  -- past the end of `index_buf`.
  pub aion_memory_flush-none :
      (s : Store W)
      → (aion_memory_flush files stack s ≡ none) ↔ ((s.mem_dirty ≢ 0) × (4095 < length s.entries))
  unfolding aion_memory_flush
  aion_memory_flush-none s = (ground arith, ground arith)

  flush_keeps :
      (key : Text) (s : Store W)
      → length s.entries ≤ 4095
      → (t : Store W) × (aion_memory_flush files stack s ≡ some t)
        × (aion_memory_search key t ≡ aion_memory_search key s)
  unfolding aion_memory_flush aion_memory_search
  flush_keeps key s small = elim (Bool-cases (s.mem_dirty == 0)) [
    | inl clean ↦ rw clean (s, refl, refl)
    | inr dirty ↦
        let fits : ltb index_size (8 + length s.entries * 256) ≡ false = ground arith in
        rw dirty (rw fits (_, refl, search_loop-flush files key stack 0 s.entries s.disk))
  ]

  add_found :
      (key : Text) (entry : AionMemoryEntry) (content : Text) (heap : Heap) (s : Store W)
      → length s.entries < 4095
      → Occurs key (c_str content)
      → (t : Store W) × (add_entry files stack entry (some content) heap s ≡ some t)
        × (aion_memory_search key t ≡ some content)
  unfolding add_entry aion_memory_search
  add_found key entry content heap s small occurs =
      let e : MemEntry = record {
        type = entry.type;
        importance = entry.importance;
        tick = entry.tick;
        content = content;
        dirty = true;
      } in
      let s' : Store W = record s {
        entries = s.entries ++ (e ∷ []);
        mem_dirty = add64 s.mem_dirty 1;
        heap = heap;
      } in
      let found : search_loop key s'.entries ≡ some content =
        search_loop-last key s.entries e occurs in
      elim (Bool-cases (leb 10 s'.mem_dirty)) [
        | inl many ↦
            let (t, eq, same) =
              flush_keeps key s' (omega (arith, length-append s.entries (e ∷ []))) in
            rw many (t, eq, same ∙ found)
        | inr few ↦ rw few (s', refl, found)
      ]

  -- What is stored is found: with room in the heap and in the index, a search for a key that the
  -- stored text holds returns that text, cut to 4096 bytes, whatever was stored before.
  pub aion_memory_search-store :
      (key : Text) (entry : AionMemoryEntry) (s : Store W)
      → length s.entries < 4095
      → IsHeap s.heap
      → s.heap.heap_ptr + rounded (length (take max_content_len entry.content) + 1)
        ≤ s.heap.heap_end
      → Occurs key (c_str (take max_content_len entry.content))
      → (t : Store W) × (aion_memory_store files stack entry s ≡ some t)
        × (aion_memory_search key t ≡ some (take max_content_len entry.content))
  unfolding aion_memory_store append_entry
  aion_memory_search-store key entry s small v fits occurs =
      let content = take max_content_len entry.content in
      let heap = record s.heap { heap_ptr = s.heap.heap_ptr + rounded (length content + 1) } in
      let copied =
        mem_strdup-some content v (omega (arith, length-take max_content_len entry.content)) fits in
      let (t, eq, found) = add_found key entry content heap s small occurs in
      let kept = evict-room s.entries (omega arith) in
      (
        t,
        ap (λ es. append_entry files stack entry (record s { entries = es })) kept
            ∙ ap (λ c. add_entry files stack entry c.0 c.1 s) copied
            ∙ eq,
        found,
      )
