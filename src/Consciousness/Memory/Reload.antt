-- ===== src/Consciousness/Memory/Reload.antt =====
-- What a flush writes of one entry, its index entry and its record, and what a load makes of it.
use aion_os.Consciousness.Text.{Text}
