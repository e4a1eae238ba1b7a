-- ===== src/Logger/Device/Tests.antt =====
-- The theorem about loading at a concrete driver.
use droid_kernal.Prelude.{ℕ, ◌+◌, [], some}
use droid_kernal.Logger.Types.{e_inval}
use droid_kernal.Logger.Device.{Driver, Answers, minor_is, refused}

abbrev unloaded : Driver
unloaded = record { log_list = []; heap = record { live = []; bad = [] } }

-- Memory at three addresses, and a device number.
abbrev granted : ℕ → Answers
granted a = record {
  vmalloc = some a;
  kzalloc = some (a + 1);
  kstrdup = some (a + 2);
  content = λ p. 0;
  misc_register = minor_is 61;
}

-- Memory, and no device number.
abbrev unregistered : ℕ → Answers
unregistered a = record (granted a) { misc_register = refused e_inval }
