-- ===== src/Util.antt =====
-- src/model/util.c: bounded string copy and the payload previews.
-- `util_now_us` and `util_fmt_hhmmss` read the clock and the time zone: not modelled.
pub mod Copy
pub mod Preview
use mqtt_viewer.Base.{
  ℕ, zero, suc, ◌+◌, ◌-◌, ◌<◌, min, Bool, true, false, not, ◌&&◌, ◌||◌, List, [], ◌∷◌, ◌++◌, map,
  Option, none, some, length, take, drop, get_or, set, ltb, leb, ◌==◌, if◌then◌else◌, Bytes, blit,
}

-- `src` is a NUL-terminated string, given without its NUL; `none` is NULL.
abbrev pub or_empty : Option Bytes → Bytes
or_empty none = []
or_empty (some s) = s

unfoldable pub util_str_copy : Bytes → ℕ → Option Bytes → Bytes
util_str_copy dst cap src =
    let s = or_empty src in
    let n = if leb cap (length s) then cap - 1 else length s in
    if cap == 0 then dst else set (blit dst 0 (take n s)) n 0

-- The string that a copy into `cap` bytes leaves.
abbrev pub truncated : ℕ → Bytes → Bytes
truncated cap s = take (cap - 1) s

-- `(c < 0x20 || c == 0x7f) ? ' ' : c`
unfoldable pub printable : ℕ → ℕ
printable c = if ltb c 0x20 || c == 0x7f then b' ' else c

-- `src` is given as its `len` bytes.
unfoldable pub util_preview_sanitize : Bytes → ℕ → Bytes → Bytes × ℕ
unfolding printable
util_preview_sanitize dst cap src =
    let n = if ltb (length src) (cap - 1) then length src else cap - 1 in
    if cap == 0 then (dst, 0) else (set (blit dst 0 (map printable (take n src))) n 0, n)

-- The loop of `util_preview_build_compact`, with the bytes left to read as the matched number.
-- Bytes are moved inside `dst`, from index `s` to index `d`.
unfoldable pub squeeze : ℕ → ℕ → ℕ → Bytes → Bytes × ℕ
squeeze zero s d dst = (dst, d)
squeeze (suc left) s d dst =
    let c = get_or dst s 0 in
    let emit = if c == b' ' then ltb 0 d && not (get_or dst (d - 1) 0 == b' ') else true in
    squeeze left (s + 1) (if emit then d + 1 else d) (if emit then set dst d c else dst)

unfoldable pub util_preview_build_compact : Bytes → ℕ → Bytes → Bytes
util_preview_build_compact dst cap src =
    let room = cap - 4 in
    let cut = ltb room (length src) in
    let (clean, n) = util_preview_sanitize dst (room + 1) (if cut then take room src else src) in
    let (packed, d) = squeeze n 0 0 clean in
    let end = if ltb 0 d && get_or packed (d - 1) 0 == b' ' then d - 1 else d in
    if ltb cap 5
    then (if cap == 0 then dst else set dst 0 0)
    else if cut
    then blit packed end (b'.' ∷ b'.' ∷ b'.' ∷ 0 ∷ [])
    else set packed end 0
