-- ===== src/JsonPp/Unescape.antt =====
-- `json_pp_line_string` and the bytes that it writes.
use mqtt_viewer.Base.{
  ℕ, zero, suc, ◌+◌, ◌-◌, ◌≤◌, true, false, ◌&&◌, ◌||◌, [], ◌∷◌, ◌++◌, Option, none, some, ◌≡◌, ◌≢◌,
  refl, ap, ◌∙◌, arith, length, take, drop, leb, ◌==◌, if◌then◌else◌, Bytes, All,
}
use mqtt_viewer.JsonPp.{JsonPpLine, JsonPpValKind, last_is}

-- The cases of the `switch` that give one byte; `none` is the default.
unfoldable pub escaped : ℕ → Option ℕ
escaped e =
    if e == b'n'
    then some b'\n'
    else if e == b'r'
    then some b'\r'
    else if e == b't'
    then some b'\t'
    else if e == b'"' || e == b'\\' || e == b'/'
    then some e
    else none

-- The loop, with `room` left of the `cap - 1` bytes. In the default case the backslash is written
-- first; where it takes the last byte of room, the `break` leaves the `switch` alone, and `ch`, still
-- the backslash, is written behind the room.
unfoldable pub unescape : ℕ → Bytes → Bytes
unescape zero s = []
unescape (suc room) [] = []
unescape (suc room) (c ∷ []) = c ∷ []
unescape (suc room) (c ∷ e ∷ s) = elim (c == b'\\') [
  | false ↦ c ∷ unescape room (e ∷ s)
  | true ↦ elim (escaped e) [
    | some x ↦ x ∷ unescape room s
    | none ↦ elim room [ zero ↦ b'\\' ∷ b'\\' ∷ [] | suc left ↦ b'\\' ∷ e ∷ unescape left s ]
  ]
]

-- The text between the quotes; the one at the end may be missing.
unfoldable pub between_quotes : Bytes → Bytes
between_quotes s = drop 1 (if leb 2 (length s) && last_is b'"' s then take (length s - 1) s else s)

-- Only a string line is written.
abbrev written_bytes : JsonPpValKind → ℕ → Bytes → Option Bytes
written_bytes JsonPpValKind.punct room s = none
written_bytes JsonPpValKind.atom room s = none
written_bytes JsonPpValKind.string room s = some (unescape room s)

-- The bytes that are written into `out` before the NUL; `none` where the C function returns false.
unfoldable pub json_pp_line_string : Option JsonPpLine → ℕ → Option Bytes
json_pp_line_string none _ = none
json_pp_line_string (some line) zero = none
json_pp_line_string (some line) (suc room) =
    written_bytes line.val_kind room (between_quotes line.val)

-- A text without a backslash.
abbrev pub NoBackslash : Bytes → Type 0
NoBackslash s = All (λ c. c ≢ b'\\') s

unescape_char :
    (c d : ℕ) (s : Bytes) (room : ℕ)
    → c ≢ b'\\'
    → unescape (suc room) (c ∷ d ∷ s) ≡ c ∷ unescape room (d ∷ s)
unfolding unescape
unescape_char c d s room h = ground arith

unescape_plain :
    (s t : Bytes) (room : ℕ)
    → NoBackslash s
    → t ≢ []
    → unescape (length s + room) (s ++ t) ≡ s ++ unescape room t
unescape_plain [] t room h ne = ap (λ n. unescape n t) (omega arith)
unescape_plain (c ∷ []) [] room h ne = absurd (ne refl)
unescape_plain (c ∷ []) (d ∷ t) room h ne =
    ap (λ n. unescape n (c ∷ d ∷ t)) (omega arith) ∙ unescape_char c d t room h.0
unescape_plain (c ∷ d ∷ s) t room h ne =
    ap (λ n. unescape n (c ∷ d ∷ s ++ t)) (omega arith)
    ∙ unescape_char c d (s ++ t) (length (d ∷ s) + room) h.0
    ∙ ap (◌∷◌ c) (unescape_plain (d ∷ s) t room h.1 ne)

-- One byte more than the room at most.
unescape-length : (room : ℕ) (s : Bytes) → length (unescape room s) ≤ suc room
unfolding unescape
unescape-length zero s = omega arith
unescape-length (suc room) [] = omega arith
unescape-length (suc room) (c ∷ []) = omega arith
unescape-length (suc zero) (c ∷ e ∷ s) =
    ground (arith, unescape-length zero (e ∷ s), unescape-length zero s)
unescape-length (suc (suc left)) (c ∷ e ∷ s) = ground (
  arith,
  unescape-length (suc left) (e ∷ s),
  unescape-length (suc left) s,
  unescape-length left s,
)

-- Where the room for `s` and one byte more is given, an unknown escape behind `s` makes the bytes
-- written `cap` in number, so that the NUL is written at `out[cap]`, behind the array.
pub json_pp_line_string_overflow :
    (line : JsonPpLine) (s rest : Bytes) (e : ℕ)
    → line.val_kind ≡ JsonPpValKind.string
    → between_quotes line.val ≡ s ++ (b'\\' ∷ e ∷ rest)
    → NoBackslash s
    → escaped e ≡ none
    → json_pp_line_string (some line) (suc (length s + 1)) ≡ some (s ++ (b'\\' ∷ b'\\' ∷ []))
unfolding json_pp_line_string
json_pp_line_string_overflow line s rest e k b h u =
    written line.val_kind (between_quotes line.val) k b
  where
    last_byte : unescape 1 (b'\\' ∷ e ∷ rest) ≡ b'\\' ∷ b'\\' ∷ []
    last_byte = unfold unescape in ground arith

    written :
        (kind : JsonPpValKind) (text : Bytes)
        → kind ≡ JsonPpValKind.string
        → text ≡ s ++ (b'\\' ∷ e ∷ rest)
        → written_bytes kind (length s + 1) text ≡ some (s ++ (b'\\' ∷ b'\\' ∷ []))
    written kind text k b =
        rw (k, b)
          (ap some (unescape_plain s (b'\\' ∷ e ∷ rest) 1 h (λ q. cc) ∙ ap (λ x. s ++ x) last_byte))

-- `json_pp_line_string` writes at most as many bytes as `out` has, and a NUL behind them.
pub json_pp_line_string-bound :
    (line : JsonPpLine) (size : ℕ) (out : Bytes)
    → json_pp_line_string (some line) size ≡ some out
    → length out ≤ size
unfolding json_pp_line_string
json_pp_line_string-bound line zero out e = absurd (ground arith)
json_pp_line_string-bound line (suc room) out e = bound line.val_kind e
  where
    bound :
        (kind : JsonPpValKind)
        → written_bytes kind room (between_quotes line.val) ≡ some out
        → length out ≤ suc room
    bound JsonPpValKind.punct e = absurd (ground arith)
    bound JsonPpValKind.atom e = absurd (ground arith)
    bound JsonPpValKind.string e = ground (arith, unescape-length room (between_quotes line.val))
