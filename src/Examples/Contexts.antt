-- ===== src/Examples/Contexts.antt =====
-- A conversation that is longer than its context.
use Prim.Native.String.{count, ◌++◌ as ◌<>◌}
use code_forge.Prelude.{ℕ, zero, suc, String, List, [], ◌∷◌, ◌≤◌, ◌<◌, ◌+◌, ◌⊎◌}
use code_forge.Harness.Context.{Message, total_size, chars_of, message_of, build}
use code_forge.Harness.Context.Bounds.{IsVerbatim, IsCompressed, build_bounded}

abbrev repeated : ℕ → String → String
repeated zero s = s
repeated (suc n) s = let half = repeated n s in half <> half

abbrev long_history : List Message
long_history =
    message_of "user" (repeated 7 "0123456789abcdef") ∷ message_of "assistant" "done" ∷ []

build_bounded_example :
    (total_size long_history + count "next" ≤ chars_of 10)
      × IsVerbatim "system" "next" long_history (build (λ s. s) 10 "system" long_history "next")
    ⊎ (chars_of 10 < total_size long_history + count "next")
      × IsCompressed
          (λ s. s)
          (chars_of 10)
          "system"
          "next"
          long_history
          (build (λ s. s) 10 "system" long_history "next")
build_bounded_example = build_bounded (λ s. s) 10 "system" "next" long_history
