-- ===== src/Kernel/Boot/Ready.antt =====
-- What the stages from the display on leave.
use aion_os.Prelude.{
  ℕ, ◌+◌, ◌^◌, ◌≤◌, ◌<◌, ◌≡◌, refl, ap, sym, ◌∙◌, true, false, Option, some, arith, ◌==◌, ne→==,
  List, [], ◌∷◌,
}
use mathlib.Core.Path.{subst}
use aion_os.Consciousness.Text.{Text, codes}
use aion_os.Consciousness.Senses.{CamFrame, MicFrame}
use aion_os.Kernel.Io.{Ports}
use aion_os.Kernel.Memory.Kmalloc.{Heap}
use aion_os.Kernel.Memory.Kmalloc.Blocks.{IsHeap, taken}
use aion_os.Kernel.Drivers.Display.{Display}
use aion_os.Kernel.Drivers.Display.Pixels.{IsFrame, Drawn, Outside}
use aion_os.Kernel.Drivers.Display.Screen.{Drawn-trans, Drawn-IsFrame}
use aion_os.Kernel.Drivers.Display.Cursor.{
  HasCursor, display_init-HasCursor, display_print_boot_line-HasCursor,
}
use aion_os.Kernel.Drivers.Devices.{cam_init, cam_at, mic_init, mic_at, fs_init}
use aion_os.Kernel.Boot.{
  AionBootInfo, Hardware, boot_log, boot_stage, on_devices, with_heap, give_nvme, give_audio,
  give_network, give_camera, give_microphone, show_screen, start_devices, Stage, run_stages,
  driver_stages,
}

-- The display of `h` differs from `s` inside of the framebuffer only, and its cursor is on the screen.
pub record OnScreen {D : Type 0} (s : Display) (h : Hardware D) : Type 0 where
  pub frame : IsFrame s
  pub drawn : Drawn s h.display
  pub cursor : HasCursor h.display

-- The stages draw nothing but their log.
Quiet : {D : Type 0} → List (Stage D) → Type 0
Quiet [] = Unit
Quiet {D} (st ∷ rest) = ((g : Hardware D) → (st.start g).display ≡ g.display) × Quiet rest

module _ {D : Type 0} {s : Display} where
  boot_log-OnScreen :
      (stage msg : Text) (h : Hardware D) → OnScreen s h → OnScreen s (boot_log stage msg h)
  unfolding boot_log
  boot_log-OnScreen stage msg h on =
      let (drawn, cursor) =
        display_print_boot_line-HasCursor stage msg h.display (Drawn-IsFrame on.drawn on.frame)
          on.cursor in
      record { frame = on.frame; drawn = Drawn-trans on.drawn drawn; cursor = cursor }

  run_stages-OnScreen :
      (stages : List (Stage D))
      → Quiet stages
      → (h : Hardware D) → OnScreen s h
      → OnScreen s (run_stages stages h)
  unfolding run_stages boot_stage Quiet
  run_stages-OnScreen [] quiet h on = on
  run_stages-OnScreen (st ∷ rest) (same, quiet) h on =
      let h1 : Hardware D = boot_log st.name st.doing h in
      let on1 = boot_log-OnScreen st.name st.doing h on in
      run_stages-OnScreen rest quiet (boot_log st.name (codes "ok") (st.start h1)) (
        boot_log-OnScreen st.name (codes "ok") (st.start h1) (record {
          frame = on1.frame;
          drawn = subst (Drawn s) (sym (same h1)) on1.drawn;
          cursor = subst HasCursor (sym (same h1)) on1.cursor;
        }))

module _ {D : Type 0} (io : Ports D) where
  drivers-Quiet : Quiet (driver_stages io)
  unfolding driver_stages on_devices with_heap give_nvme give_audio give_network give_camera
      give_microphone Quiet
  drivers-Quiet = (
    (λ g. refl),
    (
      (λ g. refl),
      (
        (λ g. refl),
        (
          (λ g. refl),
          (
            (λ g. refl),
            ((λ g. refl), ((λ g. refl), ((λ g. refl), ((λ g. refl), ((λ g. refl), tt))))),
          ),
        ),
      ),
    ),
  )

-- The two buffers.
abbrev pub camera_bytes : ℕ
camera_bytes = 153600

abbrev pub microphone_bytes : ℕ
microphone_bytes = 8192

abbrev pub blank_frame : CamFrame
blank_frame = record { width = 320; height = 240; bytes = λ i. 128 }

abbrev pub silence : MicFrame
silence = record { sample_rate = 16000; channels = 1; sample_count = 4096; samples = λ i. 0 }

module _ (heap : Heap) (is_heap : IsHeap heap) where
  cam_init-granted :
      (old : Option CamFrame)
      → heap.heap_ptr + camera_bytes ≤ heap.heap_end
      → cam_init heap old
        ≡ (some blank_frame, record heap { heap_ptr = heap.heap_ptr + camera_bytes })
  unfolding cam_init cam_at
  cam_init-granted old fits =
      let there : (heap.heap_ptr == 0) ≡ false =
        ne→== heap.heap_ptr 0 (λ e. omega (arith, is_heap.start)) in
      rw (taken camera_bytes is_heap (omega arith) fits, there, cam_at) refl

  mic_init-granted :
      (old : Option MicFrame)
      → heap.heap_ptr + microphone_bytes ≤ heap.heap_end
      → mic_init heap old
        ≡ (some silence, record heap { heap_ptr = heap.heap_ptr + microphone_bytes })
  unfolding mic_init mic_at
  mic_init-granted old fits =
      let there : (heap.heap_ptr == 0) ≡ false =
        ne→== heap.heap_ptr 0 (λ e. omega (arith, is_heap.start)) in
      rw (taken microphone_bytes is_heap (omega arith) fits, there, mic_at) refl

-- The framebuffer of the boot information.
abbrev pub screen : {D : Type 0} → AionBootInfo → Hardware D → Display
screen info h = record h.display {
  base = info.fb_addr;
  width = info.fb_width;
  height = info.fb_height;
  pitch = info.fb_pitch;
}

module _ {D : Type 0} (io : Ports D) (info : AionBootInfo) (h : Hardware D) where
  start_devices-OnScreen :
      IsFrame (screen info h)
      → info.fb_width + 32 < 2 ^ 32
      → info.fb_height + 32 < 2 ^ 32
      → OnScreen (screen info h) (start_devices io info h)
  unfolding start_devices show_screen
  start_devices-OnScreen frame wide high =
      let (drawn, cursor) =
        display_init-HasCursor info.fb_addr info.fb_width info.fb_height info.fb_pitch
          info.fb_format h.display frame wide high in
      run_stages-OnScreen (driver_stages io) (drivers-Quiet io)
        (boot_log (codes "display") (codes "ok") (show_screen info h))
        (boot_log-OnScreen (codes "display") (codes "ok") (show_screen info h)
          (record { frame = frame; drawn = drawn; cursor = cursor }))

  -- With a framebuffer that fits into the address space, of fewer than 2 ^ 32 - 32 columns and
  -- rows, and a well-formed heap that has room for the buffers of the camera and the microphone,
  -- the start ends with a blank frame of the camera, silence from the microphone, the two buffers
  -- taken from the heap one behind the other, and both file systems ready. No pixel outside of the
  -- framebuffer is written, whatever the log says, and the cursor stands on the screen.
  pub start_devices-Started :
      IsFrame (screen info h)
      → info.fb_width + 32 < 2 ^ 32
      → info.fb_height + 32 < 2 ^ 32
      → IsHeap h.managers.heap
      → h.managers.heap.heap_ptr + (camera_bytes + microphone_bytes) ≤ h.managers.heap.heap_end
      → let t = start_devices io info h in
        (t.camera ≡ some blank_frame)
        × (t.microphone ≡ some silence)
        × (t.managers.heap ≡ record h.managers.heap {
          heap_ptr = h.managers.heap.heap_ptr + camera_bytes + microphone_bytes;
        })
        × (t.fs ≡ record { usb_ready = true; ssd_ready = true })
        × ((a : ℕ) → Outside (screen info h) a → t.display.pixels a ≡ h.display.pixels a)
        × HasCursor t.display
  unfolding start_devices show_screen run_stages driver_stages boot_stage boot_log on_devices
      with_heap give_nvme give_audio give_network give_camera give_microphone fs_init
  start_devices-Started frame wide high is_heap room =
      let heap : Heap = h.managers.heap in
      let heap' : Heap = record heap { heap_ptr = heap.heap_ptr + camera_bytes } in
      let cam = cam_init-granted heap is_heap h.camera (omega arith) in
      let mic = mic_init-granted heap' (omega (arith, is_heap)) h.microphone (omega arith) in
      let on = start_devices-OnScreen frame wide high in
      (
        ap (λ r. r.0) cam,
        ap (λ r. (mic_init r.1 h.microphone).0) cam ∙ ap (λ r. r.0) mic,
        ap (λ r. (mic_init r.1 h.microphone).1) cam ∙ ap (λ r. r.1) mic,
        refl,
        on.drawn.outside,
        on.cursor,
      )
