-- ===== src/Util/Copy.antt =====
-- `util_str_copy` against the string that it should leave.
use mqtt_viewer.Base.{
  ℕ, ◌-◌, ◌≤◌, ◌<◌, Option, ◌≡◌, ◌∙◌, arith, length, take, drop, set, length-set, length-take,
  All-take, leb, ◌≢◌, if◌then◌else◌, Bytes, IsCStr, blit, length-blit, cstr, cstr_written,
  drop_written, take_all,
}
use mqtt_viewer.Util.{or_empty, util_str_copy, truncated}

copied_length :
    (cap : ℕ) (s : Bytes)
    → 0 < cap
    → length (truncated cap s) ≡ (if leb cap (length s) then cap - 1 else length s)
copied_length cap s h = ground (arith, length-take (cap - 1) s)

copied_take :
    (cap : ℕ) (s : Bytes)
    → 0 < cap
    → take (if leb cap (length s) then cap - 1 else length s) s ≡ truncated cap s
copied_take cap s h = ground (arith, take_all (length s) s, take_all (cap - 1) s)

-- What `util_str_copy` computes, in terms of the truncated string.
pub str_copy-written :
    (dst : Bytes) (cap : ℕ) (src : Option Bytes)
    → 0 < cap
    → util_str_copy dst cap src
      ≡ set (blit dst 0 (truncated cap (or_empty src))) (length (truncated cap (or_empty src))) 0
unfolding util_str_copy
str_copy-written dst cap src h =
    ground (arith, copied_length cap (or_empty src) h, copied_take cap (or_empty src) h)

-- Into an array of at least `cap > 0` bytes, `util_str_copy` leaves the longest prefix of the source
-- that fits with its NUL, writes nothing at or past `cap`, and keeps the array's size.
pub util_str_copy_lem :
    (dst : Bytes) (cap : ℕ) (src : Option Bytes)
    → 0 < cap
    → cap ≤ length dst
    → IsCStr (or_empty src)
    → (cstr (util_str_copy dst cap src) ≡ truncated cap (or_empty src))
      × (drop cap (util_str_copy dst cap src) ≡ drop cap dst)
      × (length (util_str_copy dst cap src) ≡ length dst)
util_str_copy_lem dst cap src h len c =
    let s = truncated cap (or_empty src) in
    rw (str_copy-written dst cap src h) (
      cstr_written s dst (All-take (λ c. c ≢ 0) (cap - 1) (or_empty src) c)
          (omega (arith, length-take (cap - 1) (or_empty src))),
      drop_written s dst cap (omega (arith, length-take (cap - 1) (or_empty src))),
      length-set (blit dst 0 s) (length s) 0 ∙ length-blit dst 0 s,
    )
