-- ===== src/Kernel/Boot/Log.antt =====
-- The boot log on the serial port.
use aion_os.Prelude.{◌≡◌, some, ◌∷◌, ◌++◌, []}
use aion_os.Consciousness.Text.{Text, codes}
use aion_os.Kernel.Drivers.Serial.Format.{serial_printf-width}
use aion_os.Kernel.Boot.{boot_text}

-- Every line of the log names its stage and loses its message.
pub boot_text_lem :
    (stage msg : Text) → boot_text stage msg ≡ some (codes "[boot] 20s " ++ (stage ++ 10 ∷ []))
unfolding boot_text
boot_text_lem stage msg = serial_printf-width stage msg
