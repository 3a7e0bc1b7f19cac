-- ===== src/HexDump/Dump.antt =====
-- The whole hex dump of src/ui/inspector_widget.c: which lines a buffer holds.
use mqtt_viewer.Base.{ℕ, zero, suc, ◌+◌, ◌*◌, ◌≤◌, ◌<◌, ◌≡◌, ◌⊎◌, [], ◌∷◌, ◌++◌, length, Bytes}
use mqtt_viewer.HexDump.{format_hex_line}

-- The first `k` lines from the offset on, each with its newline.
abbrev pub lines_of : Bytes → ℕ → ℕ → Bytes
lines_of src offset zero = []
lines_of src offset (suc k) =
    (format_hex_line src offset ++ (b'\n' ∷ [])) ++ lines_of src (offset + 16) k

-- `k` lines stand in `out_size` bytes, and one more of `rounds` would not.
pub record IsLongest (src : Bytes) (out_size offset rounds used k : ℕ) : Type 0 where
  pub at_most : k ≤ rounds
  pub fits : used + length (lines_of src offset k) < out_size
  pub full :
      (k ≡ rounds)
      ⊎ (out_size
          ≤ used
            + length (lines_of src offset k)
            + length (format_hex_line src (offset + 16 * k))
            + 1)
