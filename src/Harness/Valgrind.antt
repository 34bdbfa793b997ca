-- ===== src/Harness/Valgrind.antt =====
-- secret-taint/valgrind-client/src/lib.rs: the safe wrappers around the client requests.
use ed301_eddsa.Base.{ℕ, not, ◌==◌, if◌then◌else◌, length}
use ed301_eddsa.Harness.{Tracked, Memcheck}

module _ (vg : Memcheck) where
  unfoldable pub running_on_valgrind : ℕ
  running_on_valgrind = vg.running_on_valgrind

  unfoldable pub mark_undefined : Tracked → Tracked
  mark_undefined x = record x { shadow = vg.make_mem_undefined (length x.value) x.shadow }

  unfoldable pub make_defined : Tracked → Tracked
  make_defined x = record x { shadow = vg.make_mem_defined (length x.value) x.shadow }

  -- The status, and the buffer after the call.
  unfoldable pub get_vbits : Tracked → Tracked → ℕ × Tracked
  get_vbits x vbits =
      if not (length x.value == length vbits.value)
      then (3, vbits)
      else vg.get_vbits x.shadow vbits (length x.value)

  abbrev error_count : ℕ
  error_count = vg.count_errors
