-- ===== src/Mail/Size.antt =====
-- The size limits of the compose page and `formatBytes`. The file link page has the same function
-- as `formatSize` (web/src/pages/Link/Download/index.tsx).
use testkit_service.Prelude.{ℕ, ◌+◌, ◌*◌, ◌/◌, ◌<◌, ◌≤◌, ◌≡◌, arith, ltb, if◌then◌else◌}

-- MAX_INLINE_BYTES and MAX_TOTAL_INLINE_BYTES
abbrev pub max_inline_bytes : ℕ
max_inline_bytes = 2 * 1024 * 1024

abbrev pub max_total_inline_bytes : ℕ
max_total_inline_bytes = 5 * 1024 * 1024

-- What is shown: a number and its unit; KB and MB show tenths.
pub data SizeText : Type 0 where
  in_bytes in_kb_tenths in_mb_tenths : ℕ → SizeText

-- `(size / 1024).toFixed(1)` in tenths: the quotient by a power of two is exact, and `toFixed`
-- takes the nearest tenth, the larger of two.
unfoldable pub format_bytes : ℕ → SizeText
format_bytes size =
    if ltb size 1024
    then in_bytes size
    else (if ltb size (1024 * 1024)
        then in_kb_tenths ((size * 10 + 512) / 1024)
        else in_mb_tenths ((size * 10 + 524288) / 1048576))

-- How far the shown size is from the true one, twice, in tenths of the unit.
abbrev pub IsNearest : ℕ → SizeText → Type 0
IsNearest size (in_bytes n) = (n ≡ size) × (size < 1024)
IsNearest size (in_kb_tenths t) =
    (2 * (t * 1024) ≤ 2 * (size * 10) + 1024)
    × (2 * (size * 10) < 2 * (t * 1024) + 1024)
    × (1024 ≤ size)
    × (size < 1048576)
IsNearest size (in_mb_tenths t) =
    (2 * (t * 1048576) ≤ 2 * (size * 10) + 1048576)
    × (2 * (size * 10) < 2 * (t * 1048576) + 1048576)
    × (1048576 ≤ size)

-- The shown size is exact in bytes, and within half a tenth of KB or MB of the true size, in the unit
-- that the size calls for.
pub format_bytes-IsNearest : (size : ℕ) → IsNearest size (format_bytes size)
unfolding format_bytes
format_bytes-IsNearest size = ground arith
