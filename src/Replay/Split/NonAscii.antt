-- ===== src/Replay/Split/NonAscii.antt =====
-- What the loop does with text that is not ASCII. It takes the bytes one by one for characters.
use ze_db.Prelude.{
  ℕ, zero, suc, ◌+◌, ◌/◌, ◌%◌, ◌≤◌, ◌<◌, ◌≡◌, ◌∙◌, true, false, List, [], ◌∷◌, ◌++◌, arith,
}
use ze_db.Prelude.Lists.{length}
use ze_db.Prelude.Text.{Text, starts_with}
use ze_db.Replay.Split.{
  finished, panic, is_boundary, push_byte_as_char, split_loop, close_last, split_statements,
}
use ze_db.Replay.Split.Script.{Token, print_script, IsScript, parts}
use ze_db.Replay.Split.Tokens.{Reads-script, end_of_text}
use ze_db.Replay.Split.Rounds.{round_quote, round_close}
use mathlib.Core.List.{append_assoc}

round_lead :
    (f c : ℕ) (current rest : Text) (out : List Text)
    → 192 ≤ c
    → split_loop (suc f) false current out (c ∷ rest)
      ≡ split_loop f false (current ++ push_byte_as_char c) out rest
unfolding split_loop is_boundary starts_with
round_lead f c current rest out h = ground arith

round_continuation :
    (f d : ℕ) (current rest : Text) (out : List Text)
    → 128 ≤ d
    → d < 192
    → split_loop (suc f) false current out (d ∷ rest) ≡ panic
unfolding split_loop is_boundary
round_continuation f d current rest out h k = ground arith

two_rounds :
    (f c d : ℕ) (current rest : Text) (out : List Text)
    → 1 < f
    → 192 ≤ c
    → 128 ≤ d
    → d < 192
    → split_loop f false current out (c ∷ d ∷ rest) ≡ panic
two_rounds zero c d current rest out l h k j = absurd (omega arith)
two_rounds (suc zero) c d current rest out l h k j = absurd (omega arith)
two_rounds (suc (suc f)) c d current rest out l h k j =
    round_lead (suc f) c current (d ∷ rest) out h
    ∙ round_continuation f d (current ++ push_byte_as_char c) rest out k j

-- A character that is not ASCII, outside strings and comments and behind any script, makes the
-- splitter panic: `c` is its first byte and `d` its second.
pub split_statements-non_ascii :
    (ks : List Token) (c d : ℕ) (rest : Text)
    → IsScript ks (c ∷ d ∷ rest)
    → 192 ≤ c
    → 128 ≤ d
    → d < 192
    → split_statements (print_script ks ++ c ∷ d ∷ rest) ≡ panic
unfolding split_statements close_last
split_statements-non_ascii ks c d rest s h k j =
    let (f', l, e) =
      Reads-script ks (suc (length (print_script ks ++ c ∷ d ∷ rest))) [] (c ∷ d ∷ rest) [] s
        (omega arith) in
    rw e (rw (two_rounds f' c d _ rest _ (omega arith) h k j))

-- A byte above 127 in a string is written back as the two bytes of another character.
round_high :
    (f c e : ℕ) (current rest : Text) (out : List Text)
    → 128 ≤ c
    → split_loop (suc f) true current out (c ∷ e ∷ rest)
      ≡ split_loop f true (current ++ (192 + c / 64) ∷ (128 + c % 64) ∷ []) out (e ∷ rest)
unfolding split_loop push_byte_as_char
round_high f c e current rest out h = ground arith

-- The string literal of one two-byte character, as the splitter rewrites it.
abbrev pub garbled : ℕ → ℕ → Text
garbled c d = b'\'' ∷ (192 + c / 64) ∷ (128 + c % 64) ∷ (192 + d / 64) ∷ (128 + d % 64) ∷ b'\'' ∷ []

four_rounds :
    (f c d : ℕ) (current : Text) (out : List Text)
    → 4 < f
    → 128 ≤ c
    → 128 ≤ d
    → split_loop f false current out (b'\'' ∷ c ∷ d ∷ b'\'' ∷ [])
      ≡ finished (out, current ++ garbled c d)
four_rounds zero c d current out l h k = absurd (omega arith)
four_rounds (suc zero) c d current out l h k = absurd (omega arith)
four_rounds (suc (suc zero)) c d current out l h k = absurd (omega arith)
four_rounds (suc (suc (suc zero))) c d current out l h k = absurd (omega arith)
four_rounds (suc (suc (suc (suc f)))) c d current out l h k =
    round_quote (suc (suc (suc f))) current (c ∷ d ∷ b'\'' ∷ []) out
    ∙ round_high (suc (suc f)) c d _ (b'\'' ∷ []) out h
    ∙ round_high (suc f) d b'\'' _ [] out k
    ∙ round_close f _ [] out
    ∙ end_of_text f _ out (omega arith)
    ∙ rw (append_assoc, append_assoc, append_assoc)

-- A string of one two-byte character, behind any script, does not reach the server as it was
-- written: its two bytes become four.
pub split_loop-garbles :
    (ks : List Token) (c d : ℕ)
    → IsScript ks (b'\'' ∷ c ∷ d ∷ b'\'' ∷ [])
    → 128 ≤ c
    → 128 ≤ d
    → split_loop
        (suc (length (print_script ks ++ b'\'' ∷ c ∷ d ∷ b'\'' ∷ [])))
        false
        []
        []
        (print_script ks ++ b'\'' ∷ c ∷ d ∷ b'\'' ∷ [])
      ≡ finished ((parts ks [] []).0, (parts ks [] []).1 ++ garbled c d)
split_loop-garbles ks c d s h k =
    let (f', l, e) =
      Reads-script ks (suc (length (print_script ks ++ b'\'' ∷ c ∷ d ∷ b'\'' ∷ []))) []
        (b'\'' ∷ c ∷ d ∷ b'\'' ∷ []) [] s (omega arith) in
    e ∙ four_rounds f' c d _ _ (omega arith) h k
