-- ===== src/Harness/Context.antt =====
-- src/code_forge/harness/context.py: `ConversationContextManager`.
pub mod Bounds
use Prim.Native.String.{[] as ε, ◌∷◌ as ◌:>◌, count, ◌++◌ as ◌<>◌}
use mathlib.Core.List.{reverse}
use code_forge.Prelude.{
  ℕ, zero, suc, ◌+◌, ◌-◌, ◌/◌, String, Bool, true, false, ◌&&◌, Option, none, some, List, [], ◌∷◌,
  ◌++◌, leb, ltb, nonempty, if◌then◌else◌,
}
use code_forge.Prelude.Tables.{length, take}

-- A message, with the keys that it has.
pub record Message : Type 0 where
  pub role : Option String
  pub content : Option String

abbrev pub or_text_of : String → Option String → String
or_text_of d none = d
or_text_of d (some s) = s

-- `len(message.get("content", ""))`
abbrev pub size_of : Message → ℕ
size_of m = count (or_text_of "" m.content)

-- `_size`
unfoldable pub total_size : List Message → ℕ
total_size [] = 0
total_size (m ∷ ms) = size_of m + total_size ms

-- `text[:n]`
unfoldable pub first_chars : ℕ → String → String
first_chars zero s = ""
first_chars (suc n) ε = ""
first_chars (suc n) (c :> s) = c :> first_chars n s

-- max(a, b)
abbrev pub most : ℕ → ℕ → ℕ
most a b = if leb a b then b else a

abbrev is_first : List Message → Bool
is_first [] = true
is_first (m ∷ ms) = false

-- The loop over `reversed(history)`: what is taken, in the order of taking.
unfoldable pub collect : ℕ → Bool → ℕ → List Message → List Message
collect budget some_taken used [] = []
collect budget some_taken used (m ∷ ms) =
    let rest = collect budget true (used + size_of m) ms in
    if some_taken && ltb budget (used + size_of m) then [] else m ∷ rest

unfoldable pub recent_of : ℕ → List Message → List Message
unfolding collect
recent_of budget history = reverse (collect budget false 0 (reverse history))

-- `history[: len(history) - len(recent)]`
abbrev pub older_of : ℕ → List Message → List Message
older_of budget history = take (length history - length (recent_of budget history)) history

-- "\n".join(parts)
abbrev pub lines : List String → String
lines [] = ""
lines (s ∷ []) = s
lines (s ∷ t ∷ ss) = s <> "\n" <> lines (t ∷ ss)

abbrev pub summary_message : String → List Message
summary_message summary =
    if nonempty summary
    then record {
      role = some "system";
      content = some ("Earlier conversation summary:\n" <> summary);
    }
      ∷ []
    else []

abbrev pub message_of : String → String → Message
message_of role content = record { role = some role; content = some content }

-- `self.max_chars`
abbrev pub chars_of : ℕ → ℕ
chars_of max_chars = most 2000 max_chars

-- `squash s` is `" ".join(s.split())`.
module _ (squash : String → String) where
  unfoldable pub parts_of : List Message → List String
  unfolding first_chars
  parts_of [] = []
  parts_of (m ∷ ms) =
      let rest = parts_of ms in
      if nonempty (squash (or_text_of "" m.content))
      then (or_text_of "unknown" m.role
          <> ": "
          <> first_chars 500 (squash (or_text_of "" m.content)))
        ∷ rest
      else rest

  -- `_summarize`
  unfoldable pub summarize : List Message → ℕ → String
  unfolding parts_of first_chars
  summarize messages limit = first_chars limit (lines (parts_of messages))

  abbrev pub summary_of : ℕ → List Message → String
  summary_of chars history = summarize (older_of (chars / 2) history) (most 500 (chars / 3))

  -- `build`
  unfoldable pub build : ℕ → String → List Message → String → List Message
  unfolding total_size recent_of summarize
  build max_chars system_prompt history current_input =
      if leb (total_size history + count current_input) (chars_of max_chars)
      then message_of "system" system_prompt ∷ history ++ message_of "user" current_input ∷ []
      else message_of "system" system_prompt
          ∷ summary_message (summary_of (chars_of max_chars) history)
        ++ recent_of (chars_of max_chars / 2) history
        ++ message_of "user" current_input ∷ []
