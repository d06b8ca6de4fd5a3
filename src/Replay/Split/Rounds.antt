-- ===== src/Replay/Split/Rounds.antt =====
-- One round of the loop at each kind of byte.
use ze_db.Prelude.{ℕ, suc, ◌<◌, ◌≡◌, ◌≢◌, refl, Bool, true, false, not, List, [], ◌∷◌, ◌++◌, arith}
use ze_db.Prelude.Tests.{◌==◌}
use ze_db.Prelude.Lists.{length, all}
use ze_db.Prelude.Text.{Text, starts_with}
use ze_db.Replay.Split.{is_boundary, push_byte_as_char, cut_line, cut_block, split_loop}

pub push_ascii : (c : ℕ) → c < 128 → push_byte_as_char c ≡ c ∷ []
unfolding push_byte_as_char
push_ascii c h = ground arith

-- One round outside a string.
pub round_plain :
    (f c : ℕ) (current rest : Text) (out : List Text)
    → c < 128
    → c ≢ b'\''
    → c ≢ b';'
    → starts_with (b'-' ∷ b'-' ∷ []) (c ∷ rest) ≡ false
    → starts_with (b'/' ∷ b'*' ∷ []) (c ∷ rest) ≡ false
    → split_loop (suc f) false current out (c ∷ rest)
      ≡ split_loop f false (current ++ c ∷ []) out rest
unfolding split_loop is_boundary
round_plain f c current rest out h q s l b = ground (arith, push_ascii c h)

pub round_separator :
    (f : ℕ) (current rest : Text) (out : List Text)
    → split_loop (suc f) false current out (b';' ∷ rest)
      ≡ split_loop f false [] (out ++ current ∷ []) rest
unfolding split_loop is_boundary starts_with
round_separator f current rest out = refl

pub round_quote :
    (f : ℕ) (current rest : Text) (out : List Text)
    → split_loop (suc f) false current out (b'\'' ∷ rest)
      ≡ split_loop f true (current ++ b'\'' ∷ []) out rest
unfolding split_loop push_byte_as_char
round_quote f current rest out = refl

cut_line-newline :
    (t rest : Text)
    → all (λ c. not (c == b'\n')) t ≡ true
    → cut_line (t ++ b'\n' ∷ rest) ≡ (t, b'\n' ∷ rest)
unfolding cut_line
cut_line-newline [] rest h = refl
cut_line-newline (c ∷ t) rest h = ground (arith, cut_line-newline t rest)

cut_block-append :
    (t rest : Text)
    → cut_block (t ++ b'*' ∷ b'/' ∷ []) ≡ (t ++ b'*' ∷ b'/' ∷ [], [])
    → cut_block (t ++ b'*' ∷ b'/' ∷ rest) ≡ (t ++ b'*' ∷ b'/' ∷ [], rest)
unfolding cut_block
cut_block-append [] rest h = refl
cut_block-append (c ∷ []) rest h = ground arith
cut_block-append (c ∷ d ∷ []) rest h = ground (arith, cut_block-append (d ∷ []) rest)
cut_block-append (c ∷ d ∷ e ∷ t) rest h = ground (arith, cut_block-append (d ∷ e ∷ t) rest)

pub round_line :
    (f : ℕ) (current t rest : Text) (out : List Text)
    → all (λ c. not (c == b'\n')) t ≡ true
    → split_loop (suc f) false current out (b'-' ∷ b'-' ∷ (t ++ b'\n' ∷ rest))
      ≡ split_loop f false (current ++ b'-' ∷ b'-' ∷ t) out (b'\n' ∷ rest)
unfolding split_loop is_boundary starts_with
round_line f current t rest out h = rw (cut_line-newline t rest h)

pub round_block :
    (f : ℕ) (current t rest : Text) (out : List Text)
    → cut_block (t ++ b'*' ∷ b'/' ∷ []) ≡ (t ++ b'*' ∷ b'/' ∷ [], [])
    → split_loop (suc f) false current out (b'/' ∷ b'*' ∷ (t ++ b'*' ∷ b'/' ∷ rest))
      ≡ split_loop f false (current ++ b'/' ∷ b'*' ∷ (t ++ b'*' ∷ b'/' ∷ [])) out rest
unfolding split_loop is_boundary starts_with
round_block f current t rest out h = rw (cut_block-append t rest h)

-- One round inside a string.
pub round_raw :
    (f c : ℕ) (current rest : Text) (out : List Text)
    → c < 128
    → c ≢ b'\''
    → c ≢ b'\\'
    → split_loop (suc f) true current out (c ∷ rest)
      ≡ split_loop f true (current ++ c ∷ []) out rest
unfolding split_loop
round_raw f c current [] out h q e = ground (arith, push_ascii c h)
round_raw f c current (d ∷ rest) out h q e = ground (arith, push_ascii c h)

pub round_escaped :
    (f c : ℕ) (current rest : Text) (out : List Text)
    → is_boundary rest ≡ true
    → split_loop (suc f) true current out (b'\\' ∷ c ∷ rest)
      ≡ split_loop f true (current ++ b'\\' ∷ c ∷ []) out rest
unfolding split_loop
round_escaped f c current rest out h = rw h

pub round_close :
    (f : ℕ) (current rest : Text) (out : List Text)
    → split_loop (suc f) true current out (b'\'' ∷ rest)
      ≡ split_loop f false (current ++ b'\'' ∷ []) out rest
unfolding split_loop push_byte_as_char
round_close f current [] out = refl
round_close f current (d ∷ rest) out = refl

-- With fuel above what is left, the loop gets from one state to another and keeps enough.
abbrev pub Reads : ℕ → Bool → Text → List Text → Text → Bool → Text → List Text → Text → Type 0
Reads f s current out t s' current' out' rest =
    (f' : ℕ) × (length rest < f')
    × (split_loop f s current out t ≡ split_loop f' s' current' out' rest)
