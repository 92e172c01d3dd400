-- ===== src/Interp/Port/Buffer.antt =====
-- The output buffer of a worker: `WorkerRuntime::print` of src/interpreter/parallel.rs.
use net_lang.Prelude.{ℕ, ◌+◌, ◌≤◌, ◌≡◌, arith, String, List, [], ◌∷◌, ◌++◌, length}
use net_lang.Runtime.Host.{Platform, TextUnit}
use net_lang.Interp.Port.{Port, direct, worker, buffer_print, port_print}

-- The bytes of the lines, with a newline each.
abbrev pub line_bytes : TextUnit → List String → ℕ
line_bytes texts [] = 0
line_bytes texts (line ∷ lines) = length (texts.utf8 line) + 1 + line_bytes texts lines

line_bytes-append :
    (texts : TextUnit) (lines : List String) (line : String)
    → line_bytes texts (lines ++ line ∷ [])
      ≡ line_bytes texts lines + (length (texts.utf8 line) + 1)
line_bytes-append texts [] line = omega arith
line_bytes-append texts (l ∷ lines) line = omega (arith, line_bytes-append texts lines line)

module _ {H : Type 0} where
  -- A buffer counts the bytes of its lines and keeps within its limit.
  abbrev pub IsCounted : TextUnit → Port H → Type 0
  IsCounted texts (direct h) = Unit
  IsCounted texts (worker h output bytes limit) =
      (bytes ≡ line_bytes texts output) × (bytes ≤ limit)

  -- Printing keeps the count of a worker's buffer right and within its limit, also when the line is
  -- refused.
  pub port_print-IsCounted :
      (platform : Platform H) (text : String) (p : Port H)
      → IsCounted platform.texts p
      → IsCounted platform.texts (port_print platform text p).1
  unfolding port_print buffer_print
  port_print-IsCounted platform text (direct h) counted = tt
  port_print-IsCounted platform text (worker h output bytes limit) (right, within) =
      ground (arith, line_bytes-append platform.texts output text)
