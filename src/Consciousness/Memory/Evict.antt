-- ===== src/Consciousness/Memory/Evict.antt =====
-- Which entry a full store gives up.
use aion_os.Prelude.{ℕ, ◌≤◌, ◌<◌, ◌≡◌, false, some, List, arith, leb, length, get_elem?}
use aion_os.Consciousness.Memory.Disk.{MemEntry, mem_episodic}
use aion_os.Consciousness.Memory.{max_memories, evict}

-- No episodic entry of the list is less important than `imp`.
abbrev pub NoneBelow : ℕ → List MemEntry → Type 0
NoneBelow imp es =
    (j : ℕ) (e : MemEntry) → get_elem? es j ≡ some e → e.type ≡ mem_episodic → imp ≤ e.importance

-- Entry `k` is episodic, less important than `imp` and than every episodic entry before it, and not
-- more important than any behind it.
pub record Least (imp : ℕ) (es : List MemEntry) (k : ℕ) : Type 0 where
  pub entry : MemEntry
  pub at : get_elem? es k ≡ some entry
  pub episodic : entry.type ≡ mem_episodic
  pub below : entry.importance < imp
  pub before :
      (j : ℕ) (e : MemEntry)
      → get_elem? es j ≡ some e
      → e.type ≡ mem_episodic
      → j < k
      → entry.importance < e.importance
  pub least : NoneBelow entry.importance es

weaken : (a b : ℕ) (es : List MemEntry) → a ≤ b → NoneBelow b es → NoneBelow a es
weaken a b es le rest j e at ep = omega (arith, rest j e at ep)

-- A store that is not full keeps its entries.
pub evict-room : (es : List MemEntry) → length es < max_memories → evict es ≡ es
unfolding evict
evict-room es room =
    let not_full : leb max_memories (length es) ≡ false = ground arith in rw not_full
