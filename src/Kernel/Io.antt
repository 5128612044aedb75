-- ===== src/Kernel/Io.antt =====
-- Port input and output, kernel/include/io.h. What lies behind the ports is not the program's: a
-- machine is a type of states with the two instructions.
use aion_os.Prelude.{ℕ}

pub record Ports (D : Type 0) : Type 0 where
  pub inb : ℕ → D → ℕ × D
  pub outb : ℕ → ℕ → D → D
  pub inl : ℕ → D → ℕ × D
  pub outl : ℕ → ℕ → D → D

-- `io_wait()` of io.h
pub io_wait : {D : Type 0} → Ports D → D → D
io_wait io d = io.outb 0x80 0 d
