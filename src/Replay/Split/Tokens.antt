-- ===== src/Replay/Split/Tokens.antt =====
-- The loop reads a script token by token.
use ze_db.Prelude.{
  ℕ, zero, suc, ◌+◌, ◌≤◌, ◌<◌, ◌≡◌, refl, ap, ◌∙◌, true, false, not, List, [], ◌∷◌, ◌++◌, arith,
}
use ze_db.Prelude.Tests.{◌==◌}
use ze_db.Prelude.Lists.{length, length-append, all}
use ze_db.Prelude.Text.{Text, starts_with}
use ze_db.Replay.Split.{finished, is_boundary, Statements, split_loop}
use ze_db.Replay.Split.Script.{
  StringUnit, raw, escaped, Token, plain, quoted, line_comment, block_comment, separator,
  print_string, print_token, print_script, IsString, IsToken, IsScript, parts,
}
use ze_db.Replay.Split.Rounds.{
  round_plain, round_separator, round_quote, round_line, round_block, round_raw, round_escaped,
  round_close, Reads,
}
use mathlib.Core.List.{append_assoc}

print_string-boundary :
    (us : List StringUnit) (rest : Text)
    → IsString us
    → is_boundary (print_string us ++ rest) ≡ true
unfolding is_boundary
print_string-boundary [] rest h = refl
print_string-boundary (raw c ∷ us) rest h = ground arith
print_string-boundary (escaped c ∷ us) rest h = refl

Reads-string :
    (us : List StringUnit) (f : ℕ) (current rest : Text) (out : List Text)
    → IsString us
    → length (print_string us ++ rest) < f
    → Reads f true current out (print_string us ++ rest) false (current ++ print_string us) out rest
Reads-string us zero current rest out h l = absurd (omega arith)
Reads-string [] (suc f) current rest out h l = (f, omega arith, round_close f current rest out)
Reads-string (raw c ∷ us) (suc f) current rest out h l =
    let (f', l', e) = Reads-string us f (current ++ c ∷ []) rest out h.3 (omega arith) in
    (f', l', round_raw f c current (print_string us ++ rest) out h.0 h.1 h.2 ∙ e ∙ rw append_assoc)
Reads-string (escaped c ∷ us) (suc f) current rest out h l =
    let (f', l', e) = Reads-string us f (current ++ b'\\' ∷ c ∷ []) rest out h.1 (omega arith) in
    (
      f',
      l',
      round_escaped f c current (print_string us ++ rest) out (print_string-boundary us rest h.1)
          ∙ e
          ∙ rw append_assoc,
    )

length-block : (t rest : Text) → length rest + 4 ≤ length (b'/' ∷ b'*' ∷ (t ++ b'*' ∷ b'/' ∷ rest))
length-block t rest = omega (arith, length-append {0} t (b'*' ∷ b'/' ∷ rest))

length-line : (t rest : Text) → length rest + 3 ≤ length (b'-' ∷ b'-' ∷ (t ++ b'\n' ∷ rest))
length-line t rest = omega (arith, length-append {0} t (b'\n' ∷ rest))

-- The state behind one token.
abbrev after : Token → List Text → Text → Statements
after k out current = parts (k ∷ []) out current

Reads-line :
    (t : Text) (f : ℕ) (current rest : Text) (out : List Text)
    → all (λ c. not (c == b'\n')) t ≡ true
    → length (b'-' ∷ b'-' ∷ (t ++ b'\n' ∷ rest)) < f
    → Reads f false current out
        (b'-' ∷ b'-' ∷ (t ++ b'\n' ∷ rest))
        false
        (current ++ b'-' ∷ b'-' ∷ (t ++ b'\n' ∷ []))
        out
        rest
Reads-line t zero current rest out h l = absurd (omega arith)
Reads-line t (suc zero) current rest out h l = absurd (omega (arith, length-line t rest))
Reads-line t (suc (suc f)) current rest out h l = (
  f,
  omega (arith, length-line t rest),
  round_line (suc f) current t rest out h
      ∙ round_plain f b'\n' (current ++ b'-' ∷ b'-' ∷ t) rest out (omega arith) (omega arith)
          (omega arith) (unfold starts_with in refl) (unfold starts_with in refl)
      ∙ rw append_assoc,
)

Reads-token :
    (k : Token) (f : ℕ) (current rest : Text) (out : List Text)
    → IsToken k rest
    → length (print_token k ++ rest) < f
    → Reads f false current out
        (print_token k ++ rest)
        false
        (after k out current).1
        (after k out current).0
        rest
Reads-token k zero current rest out h l = absurd (omega arith)
Reads-token (plain c) (suc f) current rest out h l =
    (f, omega arith, round_plain f c current rest out h.0 h.1 h.2 h.3 h.4)
Reads-token (quoted us) (suc f) current rest out h l =
    let (f', l', e) = Reads-string us f (current ++ b'\'' ∷ []) rest out h (omega arith) in
    (f', l', round_quote f current (print_string us ++ rest) out ∙ e ∙ rw append_assoc)
Reads-token (line_comment t) (suc f) current rest out h l =
    rw (append_assoc t (b'\n' ∷ []) rest)
      (Reads-line t (suc f) current rest out h (rw (append_assoc t (b'\n' ∷ []) rest) at l))
Reads-token (block_comment t) (suc f) current rest out h l = (
  f,
  omega (
    arith,
    length-block t rest,
    ap (λ (u : Text). length u) (append_assoc t (b'*' ∷ b'/' ∷ []) rest),
  ),
  rw (append_assoc t (b'*' ∷ b'/' ∷ []) rest) (round_block f current t rest out h),
)
Reads-token separator (suc f) current rest out h l =
    (f, omega arith, round_separator f current rest out)

parts-cons :
    (k : Token) (ks : List Token) (out : List Text) (current : Text)
    → parts (k ∷ ks) out current ≡ parts ks (after k out current).0 (after k out current).1
parts-cons (plain c) ks out current = refl
parts-cons (quoted us) ks out current = refl
parts-cons (line_comment t) ks out current = refl
parts-cons (block_comment t) ks out current = refl
parts-cons separator ks out current = refl

pub Reads-script :
    (ks : List Token) (f : ℕ) (current rest : Text) (out : List Text)
    → IsScript ks rest
    → length (print_script ks ++ rest) < f
    → Reads f false current out
        (print_script ks ++ rest)
        false
        (parts ks out current).1
        (parts ks out current).0
        rest
Reads-script [] f current rest out h l = (f, l, refl)
Reads-script (k ∷ ks) f current rest out h l =
    let assoc = append_assoc (print_token k) (print_script ks) rest in
    let (f', l', e) = Reads-token k f current (print_script ks ++ rest) out h.0 (rw assoc at l) in
    let (f'', l'', e') =
      Reads-script ks f' (after k out current).1 rest (after k out current).0 h.1 l' in
    (f'', l'', rw (assoc, parts-cons k ks out current) (e ∙ e'))

pub end_of_text :
    (f : ℕ) (current : Text) (out : List Text)
    → 0 < f
    → split_loop f false current out [] ≡ finished (out, current)
unfolding split_loop
end_of_text zero current out h = absurd (omega arith)
end_of_text (suc f) current out h = refl

-- The statements again as one text.
abbrev pub rejoin : List Text → Text → Text
rejoin [] current = current
rejoin (s ∷ out) current = s ++ b';' ∷ rejoin out current
