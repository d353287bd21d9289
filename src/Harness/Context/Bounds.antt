-- ===== src/Harness/Context/Bounds.antt =====
-- What a bounded context keeps of a conversation.
use Prim.Native.String.{[] as ε, ◌∷◌ as ◌:>◌, count}
use Prim.Native.String.count.{cons as count_cons}
use mathlib.Core.List.{reverse, reverse-append, reverse-reverse, reverse-cons}
use code_forge.Prelude.{
  ℕ, zero, suc, ◌+◌, ◌-◌, ◌/◌, ◌≤◌, ◌<◌, ◌≡◌, ◌∙◌, ◌⊎◌, inl, inr, refl, ap, sym, String, Bool, true,
  false, Option, none, some, List, [], ◌∷◌, ◌++◌, leb, ltb, arith, Bool-cases,
}
use code_forge.Prelude.Tables.{length, take}
use code_forge.Prelude.Order.{last, length-append, last-append}
use code_forge.Harness.Context.{
  Message, size_of, total_size, first_chars, most, collect, recent_of, older_of, summarize,
  summary_message, message_of, chars_of, summary_of, build,
}

take-append {ℓ} : {A : Type ℓ} (xs ys : List A) → take (length xs) (xs ++ ys) ≡ xs
take-append [] [] = refl
take-append [] (y ∷ ys) = refl
take-append (x ∷ xs) ys = ap (λ l. x ∷ l) (take-append xs ys)

total_size-append : (xs ys : List Message) → total_size (xs ++ ys) ≡ total_size xs + total_size ys
unfolding total_size
total_size-append [] ys = omega arith
total_size-append (x ∷ xs) ys = omega (arith, total_size-append xs ys)

total_size-reverse : (xs : List Message) → total_size (reverse xs) ≡ total_size xs
unfolding total_size
total_size-reverse [] = refl
total_size-reverse (x ∷ xs) =
    let here = ap total_size (reverse-cons x xs) in
    omega (arith, here, total_size-append (reverse xs) (x ∷ []), total_size-reverse xs)

count-first_chars : (n : ℕ) (s : String) → count (first_chars n s) ≤ n
unfolding first_chars
count-first_chars zero s = omega arith
count-first_chars (suc n) ε = omega arith
count-first_chars (suc n) (c :> s) =
    omega (arith, count_cons c (first_chars n s), count-first_chars n s)

-- The messages that the loop leaves.
abbrev Left : ℕ → Bool → ℕ → List Message → Type 0
Left budget b used ms = (left : List Message) × (collect budget b used ms ++ left ≡ ms)

collect-Left : (budget : ℕ) (b : Bool) (used : ℕ) (ms : List Message) → Left budget b used ms
unfolding collect
collect-Left budget b used [] = ([], refl)
collect-Left budget false used (m ∷ ms) =
    let rest = collect-Left budget true (used + size_of m) ms in (rest.0, ap (λ l. m ∷ l) rest.1)
collect-Left budget true used (m ∷ ms) =
    let rest = collect-Left budget true (used + size_of m) ms in
    elim (Bool-cases (ltb budget (used + size_of m))) [
      | inl e ↦ rw e (m ∷ ms, refl)
      | inr e ↦ rw e (rest.0, ap (λ l. m ∷ l) rest.1)
    ]

collect_size :
    (budget used : ℕ) (ms : List Message)
    → used + total_size (collect budget true used ms) ≤ most budget used
unfolding collect total_size
collect_size budget used [] = ground arith
collect_size budget used (m ∷ ms) =
    let rest = collect_size budget (used + size_of m) ms in
    elim (Bool-cases (ltb budget (used + size_of m))) [
      | inl e ↦ rw e (ground (arith, e))
      | inr e ↦ rw e (ground (arith, rest, e))
    ]

abbrev last_size : Option Message → ℕ
last_size none = 0
last_size (some m) = size_of m

module _ (max_chars : ℕ) (history : List Message) where
  abbrev chars : ℕ
  chars = chars_of max_chars

  abbrev recent : List Message
  recent = recent_of (chars / 2) history

  parted : older_of (chars / 2) history ++ recent ≡ history
  unfolding recent_of
  parted =
      let left = collect-Left (chars / 2) false 0 (reverse history) in
      let taken = collect (chars / 2) false 0 (reverse history) in
      let whole : reverse left.0 ++ recent ≡ history =
        sym (reverse-append taken left.0) ∙ ap reverse left.1 ∙ reverse-reverse history in
      let size : length history - length recent ≡ length (reverse left.0) =
        omega (arith, length-append (reverse left.0) recent, ap length whole) in
      let older : older_of (chars / 2) history ≡ reverse left.0 =
        ap (λ n. take n history) size
        ∙ ap (λ l. take (length (reverse left.0)) l) (sym whole)
        ∙ take-append (reverse left.0) recent in
      ap (λ l. l ++ recent) older ∙ whole

  latest_from :
      (back : List Message)
      → last (reverse (collect (chars / 2) false 0 back)) ≡ last (reverse back)
  unfolding collect
  latest_from [] = refl
  latest_from (m ∷ ms) =
      let rest = collect (chars / 2) true (0 + size_of m) ms in
      ap last (reverse-cons m rest)
      ∙ last-append (reverse rest) m
      ∙ sym (last-append (reverse ms) m)
      ∙ ap last (sym (reverse-cons m ms))

  latest : last recent ≡ last history
  unfolding recent_of
  latest = latest_from (reverse history) ∙ ap last (reverse-reverse history)

  size_from :
      (back : List Message)
      → total_size (collect (chars / 2) false 0 back)
        ≤ most (chars / 2) (last_size (last (reverse back)))
  unfolding collect total_size
  size_from [] = omega arith
  size_from (m ∷ ms) =
      let rest = collect_size (chars / 2) (0 + size_of m) ms in
      let newest : last (reverse (m ∷ ms)) ≡ some m =
        ap last (reverse-cons m ms) ∙ last-append (reverse ms) m in
      rw newest (ground (arith, rest))

  size : total_size recent ≤ most (chars / 2) (last_size (last history))
  unfolding recent_of
  size =
      let newest = ap last (reverse-reverse history) in
      let bound = size_from (reverse history) in
      rw (total_size-reverse (collect (chars / 2) false 0 (reverse history)))
        (rw (sym newest) bound)

-- What `build` gives where the conversation is too long for the budget.
pub record IsCompressed (squash : String → String) (chars : ℕ) (system_prompt input : String)
    (history messages : List Message) : Type 0 where
  pub older : List Message
  pub recent : List Message
  pub summary : String
  pub whole :
      messages
      ≡ message_of "system" system_prompt ∷ summary_message summary
        ++ recent
        ++ message_of "user" input ∷ []
  pub parted : older ++ recent ≡ history
  pub latest : last recent ≡ last history
  pub recent_size : total_size recent ≤ most (chars / 2) (last_size (last history))
  pub summarized : summary ≡ summarize squash older (most 500 (chars / 3))
  pub summary_size : count summary ≤ most 500 (chars / 3)

abbrev pub IsVerbatim : String → String → List Message → List Message → Type 0
IsVerbatim system_prompt input history messages =
    messages ≡ message_of "system" system_prompt ∷ history ++ message_of "user" input ∷ []

-- `build` gives the whole conversation between the prompt and the input where their size, without
-- the prompt, is within the budget, which is at least 2000. Where it is over, the conversation is
-- parted in two: the later messages stand verbatim and in order, the last one among them, and
-- together take half of the budget or the size of the last message, the larger of the two; the
-- earlier ones give way to their summary, cut at at most 500 characters or a third of the budget.
pub build_bounded :
    (squash : String → String) (max_chars : ℕ) (system_prompt input : String)
    (history : List Message)
    → (total_size history + count input ≤ chars_of max_chars)
        × IsVerbatim system_prompt input history
            (build squash max_chars system_prompt history input)
      ⊎ (chars_of max_chars < total_size history + count input)
        × IsCompressed squash
            (chars_of max_chars)
            system_prompt
            input
            history
            (build squash max_chars system_prompt history input)
unfolding build summarize
build_bounded squash max_chars system_prompt input history =
    elim (Bool-cases (leb (total_size history + count input) (chars_of max_chars))) [
      | inl e ↦ inl (ground (arith, e), rw e refl)
      | inr e ↦ inr (
        ground (arith, e),
        record {
          older = older_of (chars_of max_chars / 2) history;
          recent = recent_of (chars_of max_chars / 2) history;
          summary = summary_of squash (chars_of max_chars) history;
          whole = rw e refl;
          parted = parted max_chars history;
          latest = latest max_chars history;
          recent_size = size max_chars history;
          summarized = refl;
          summary_size = count-first_chars (most 500 (chars_of max_chars / 3)) _;
        },
      )
    ]
