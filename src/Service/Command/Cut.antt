-- ===== src/Service/Command/Cut.antt =====
-- When the cut of a long output panics.
use text.Mathlib.Text.{is_char_boundary}
use text.Mathlib.TextPositions.{boundary-zero}
use nexus_link.Base.{String, arith, false, len, none, ◌<◌, ◌↔◌, ◌≡◌}
use nexus_link.Service.Command.{max_output_len, truncate_output}

-- The cut of an output panics exactly if it is longer than 8192 bytes and the byte at 8192 does not
-- begin a character.
pub truncate_output-none_iff :
    (s : String)
    → (truncate_output s ≡ none)
      ↔ ((max_output_len < len s) × (is_char_boundary s max_output_len ≡ false))
unfolding truncate_output
truncate_output-none_iff s = ground (arith, boundary-zero s)
