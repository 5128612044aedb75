-- ===== src/Kernel/Arch/Idt/Handlers.antt =====
-- Registration and dispatch of interrupt handlers.
use aion_os.Prelude.{
  ℕ, ◌-◌, ◌<◌, ◌≡◌, ◌≢◌, refl, true, false, ◌&&◌, arith, ◌==◌, if◌then◌else◌, ne→==, ==_iff, List,
  [], ◌∷◌, ◌++◌, ◌∙◌, leb, ltb, Bool-cases, inl, inr,
}
use aion_os.Prelude.Bytes.{bit}
use aion_os.Kernel.Io.{Ports}
use aion_os.Kernel.Arch.Pic.{irq_base, pic_send_eoi, pic_unmask, port_of, line_of}
use aion_os.Kernel.Arch.Pic.Masks.{HasMasks, mask-pic_unmask, mask-pic_mask}
use aion_os.Kernel.Arch.Idt.{
  UserHandlers, is_irq, idt_dispatch, call_handler, idt_register_handler, idt_unregister_handler,
}

==_self : (n : ℕ) → (n == n) ≡ true
==_self n = (==_iff n n).1 refl

-- A call of the API: `idt_register_handler` or `idt_unregister_handler`.
pub data Call (D : Type 0) : Type 0 where
  registers : ℕ → (ℕ → ℕ → D → D) → ℕ → Call D
  unregisters : ℕ → Call D

abbrev pub vector_of : {D : Type 0} → Call D → ℕ
vector_of (registers vec f c) = vec
vector_of (unregisters vec) = vec

-- What an interrupt at its vector runs after a call.
abbrev pub serve : {D : Type 0} → Call D → D → D
serve (registers vec f c) d = f vec c d
serve (unregisters vec) d = d

-- None of the calls is about the vector.
abbrev pub NoCallAt : {D : Type 0} → ℕ → List (Call D) → Type 0
NoCallAt vec [] = Unit
NoCallAt vec (r ∷ rs) = (vector_of r ≢ vec) × NoCallAt vec rs

module _ {D : Type 0} (io : Ports D) where
  pub run_call : Call D → UserHandlers D → D → UserHandlers D × D
  run_call (registers vec f c) h d = idt_register_handler io vec f c h d
  run_call (unregisters vec) h d = idt_unregister_handler io vec h d

  pub run_calls : List (Call D) → UserHandlers D → D → UserHandlers D × D
  unfolding run_call
  run_calls [] h d = (h, d)
  run_calls (r ∷ rs) h d = let (h', d') = run_call r h d in run_calls rs h' d'

  -- The bytes that end the interrupt at a vector, to the second controller first.
  abbrev pub end_of_interrupt : ℕ → D → D
  end_of_interrupt vec d =
      if leb 0x20 vec && ltb vec 0x30
      then io.outb 0x20 0x20 (if leb 0x28 vec then io.outb 0xa0 0x20 d else d)
      else d

  run_call-other :
      (vec : ℕ) (r : Call D) (h : UserHandlers D) (d : D)
      → vector_of r ≢ vec
      → let h' = (run_call r h d).0 in (h'.handler vec ≡ h.handler vec) × (h'.ctx vec ≡ h.ctx vec)
  unfolding run_call idt_register_handler idt_unregister_handler
  run_call-other vec (registers v f c) h d ne = let other = ne→== v vec ne in (rw other, rw other)
  run_call-other vec (unregisters v) h d ne = let other = ne→== v vec ne in (rw other, rw other)

  run_calls-others :
      (vec : ℕ) (rs : List (Call D)) (h : UserHandlers D) (d : D)
      → NoCallAt vec rs
      → let h' = (run_calls rs h d).0 in (h'.handler vec ≡ h.handler vec) × (h'.ctx vec ≡ h.ctx vec)
  unfolding run_calls
  run_calls-others vec [] h d others = (refl, refl)
  run_calls-others vec (r ∷ rs) h d (ne, others) =
      let next = run_call r h d in
      let here = run_call-other vec r h d ne in
      let rest = run_calls-others vec rs next.0 next.1 others in (rest.0 ∙ here.0, rest.1 ∙ here.1)

  acknowledged :
      (vec : ℕ) (d : D)
      → (if is_irq vec then pic_send_eoi io (vec - irq_base) d else d) ≡ end_of_interrupt vec d
  unfolding pic_send_eoi
  acknowledged vec d = elim (Bool-cases (leb 0x28 vec)) [
    | inl second ↦
        let line : ltb (vec - irq_base) 8 ≡ false = ground arith in rw (second, line, pic_send_eoi)
    | inr first ↦
        let line : ltb (vec - irq_base) 8 ≡ true = ground arith in rw (first, line, pic_send_eoi)
  ]

  dispatch-call :
      (r : Call D) (h k : UserHandlers D) (d m : D)
      → let h' = (run_call r h d).0 in
        k.handler (vector_of r) ≡ h'.handler (vector_of r)
        → k.ctx (vector_of r) ≡ h'.ctx (vector_of r)
        → idt_dispatch io (vector_of r) k m ≡ end_of_interrupt (vector_of r) (serve r m)
  unfolding idt_dispatch call_handler run_call idt_register_handler idt_unregister_handler
  dispatch-call (registers vec f c) h k d m eh ec =
      rw (eh, ec, ==_self vec) (acknowledged vec (f vec c m))
  dispatch-call (unregisters vec) h k d m eh ec = rw (eh, ==_self vec) (acknowledged vec m)

  -- After any sequence of calls that register and take back handlers, an interrupt runs what the last
  -- call for its vector left: the handler of that call, with the vector and its context, or nothing.
  -- Then 0x20 ends the interrupt, for the vectors 0x20 to 0x2F only: at port 0xA0 first for those
  -- from 0x28 on, and at port 0x20 for all of them.
  pub idt_dispatch-last :
      (before : List (Call D)) (r : Call D) (after : List (Call D)) (h : UserHandlers D) (d m : D)
      → NoCallAt (vector_of r) after
      → idt_dispatch io (vector_of r) (run_calls (before ++ (r ∷ after)) h d).0 m
        ≡ end_of_interrupt (vector_of r) (serve r m)
  unfolding run_calls
  idt_dispatch-last [] r after h d m others =
      let next = run_call r h d in
      let kept = run_calls-others (vector_of r) after next.0 next.1 others in
      dispatch-call r h (run_calls after next.0 next.1).0 d m kept.0 kept.1
  idt_dispatch-last (b ∷ before) r after h d m others =
      let next = run_call b h d in idt_dispatch-last before r after next.0 next.1 m others

module _ {D : Type 0} {io : Ports D} {IsReady : D → Type 0} {mask : ℕ → D → ℕ}
    (laws : HasMasks io IsReady mask) where
  -- Registering a handler for a hardware vector opens exactly its line, and taking the handler back
  -- closes it again; every other line of both controllers stays as it was.
  pub mask-register-unregister :
      (vec : ℕ) (f : ℕ → ℕ → D → D) (c : ℕ) (h : UserHandlers D) (d : D)
      → is_irq vec ≡ true
      → IsReady d
      → (q j : ℕ) → j < 8
      → let (h', d') = idt_register_handler io vec f c h d in
        let d'' = (idt_unregister_handler io vec h' d').1 in
        let irq = vec - irq_base in
        (bit (mask q d') j
          ≡ (if port_of irq == q && line_of irq == j then false else bit (mask q d) j))
        × (bit (mask q d'') j
            ≡ (if port_of irq == q && line_of irq == j then true else bit (mask q d) j))
  unfolding idt_register_handler idt_unregister_handler
  mask-register-unregister vec f c h d irq ready q j hj =
      let n = vec - irq_base in
      let small : n < 16 = ground arith in
      let open_line = mask-pic_unmask laws n d small ready in
      let closed = mask-pic_mask laws n (pic_unmask io n d) small open_line.0 in
      rw irq (open_line.1 q j hj, ground (arith, open_line.1 q j hj, closed.1 q j hj))
