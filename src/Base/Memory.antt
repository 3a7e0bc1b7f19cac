-- ===== src/Base/Memory.antt =====
-- Character arrays: `memcpy` into one, and the C string that stands in one.
use Prim.Native.Nat.{ℕ, zero, suc, ◌<◌}
use mathlib.Core.Path.{◌≡◌, refl, ap}
use mathlib.Core.List.{[], ◌∷◌}
use native.Mathlib.Omega.{arith}
use mqtt_viewer.Base.Tests.{◌==◌, if◌then◌else◌}
use mqtt_viewer.Base.Lists.{length, drop, set}
use mqtt_viewer.Base.Text.{Bytes, IsCStr}

-- `memcpy(dst + at, src, n)`; a write out of bounds changes nothing.
abbrev pub blit : Bytes → ℕ → Bytes → Bytes
blit [] at src = []
blit (x ∷ xs) zero [] = x ∷ xs
blit (x ∷ xs) zero (y ∷ ys) = y ∷ blit xs zero ys
blit (x ∷ xs) (suc at) ys = x ∷ blit xs at ys

-- The string that an array holds: its bytes up to the first NUL.
abbrev pub cstr : Bytes → Bytes
cstr [] = []
cstr (c ∷ cs) = if c == 0 then [] else c ∷ cstr cs

pub length-blit : (dst : Bytes) (at : ℕ) (src : Bytes) → length (blit dst at src) ≡ length dst
length-blit [] at src = refl
length-blit (x ∷ xs) zero [] = refl
length-blit (x ∷ xs) zero (y ∷ ys) = ap suc (length-blit xs zero ys)
length-blit (x ∷ xs) (suc at) ys = ap suc (length-blit xs at ys)

-- A string written with its terminator is the string read.
pub cstr_written :
    (s dst : Bytes) → IsCStr s → length s < length dst → cstr (set (blit dst 0 s) (length s) 0) ≡ s
cstr_written [] [] c h = absurd (omega arith)
cstr_written [] (d ∷ ds) c h = refl
cstr_written (x ∷ s) [] c h = absurd (omega arith)
cstr_written (x ∷ s) (d ∷ ds) c h = ground (arith, cstr_written s ds c.1 (omega arith))

-- Nothing past what was written changes.
pub drop_written :
    (s dst : Bytes) (k : ℕ) → length s < k → drop k (set (blit dst 0 s) (length s) 0) ≡ drop k dst
drop_written s dst zero h = absurd (omega arith)
drop_written [] [] (suc k) h = refl
drop_written [] (d ∷ ds) (suc k) h = refl
drop_written (x ∷ s) [] (suc k) h = refl
drop_written (x ∷ s) (d ∷ ds) (suc k) h = drop_written s ds k (omega arith)
