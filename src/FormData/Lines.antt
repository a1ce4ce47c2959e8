-- ===== src/FormData/Lines.antt =====
-- utils/buffer.ts: the lines of a buffer, which is a list of bytes.
use mathlib.Core.List.{append_assoc, append-nil}
use testcafe_hammerhead.Common.{
  ◌≡◌, refl, ap, sym, ◌∙◌, ℕ, Bool, true, false, not, ◌&&◌, ◌==◌, List, [], ◌∷◌, ◌++◌, arith,
  if◌then◌else◌, if-elim, clash, All, ==_iff,
}
use testcafe_hammerhead.Common.Chars.{Text, is_empty}

abbrev pub crlf : Text
crlf = 13 ∷ 10 ∷ []

-- The bytes that are left, the slice from `start` so far, and whether the next byte lies before
-- `start`.
unfoldable pub lines_from : (skips : Bool) → (slice : Text) → Text → List Text
lines_from skips slice [] = []
lines_from true slice (b ∷ []) = [] ∷ []
lines_from false slice (b ∷ []) = (slice ++ b ∷ []) ∷ []
lines_from true slice (b ∷ c ∷ rest) = lines_from false [] (c ∷ rest)
lines_from false slice (b ∷ c ∷ rest) =
    let next = lines_from true [] (c ∷ rest) in
    let longer = lines_from false (slice ++ b ∷ []) (c ∷ rest) in
    if b == 13 && c == 10 then slice ∷ next else longer

-- `createLineIterator`
unfoldable pub create_line_iterator : Text → List Text
unfolding lines_from
create_line_iterator buffer = lines_from false [] buffer

-- `appendLine`; the lines and what stands between them are chunks.
unfoldable pub append_line : List Text → Text → List Text
append_line [] line = line ∷ []
append_line (chunk ∷ chunks) line = (chunk ∷ chunks) ++ crlf ∷ line ∷ []

-- `Buffer.concat`
abbrev pub concat : List Text → Text
concat [] = []
concat (chunk ∷ chunks) = chunk ++ concat chunks

-- Lines with the separator in front of each, and with the separator between them.
abbrev pub lines_after : List Text → Text
lines_after [] = []
lines_after (line ∷ lines) = 13 ∷ 10 ∷ (line ++ lines_after lines)

abbrev pub join : List Text → Text
join [] = []
join (line ∷ lines) = line ++ lines_after lines

-- No separator inside.
abbrev pub is_line : Text → Bool
is_line [] = true
is_line (b ∷ []) = true
is_line (b ∷ c ∷ rest) = not (b == 13 && c == 10) && is_line (c ∷ rest)

abbrev pub IsLine : Text → Type 0
IsLine line = is_line line ≡ true

both : (a b : Bool) → (a && b) ≡ true → (a ≡ true) × (b ≡ true)
both a b h = ground (arith, h)

and_not : (a b : Bool) → (not a && b) ≡ true → (a ≡ false) × (b ≡ true)
and_not a b h = ground (arith, h)

never_lf : (a : Bool) (c : ℕ) → c ≡ 13 → (a && c == 10) ≡ false
never_lf a c e = ground (arith, e)

join_of_after : (lines : List Text) (b : Text) → lines_after lines ≡ 13 ∷ 10 ∷ b → join lines ≡ b
join_of_after [] b e = cc
join_of_after (line ∷ lines) b e = cc

mutual
  unfolding lines_from

  after_lines_from :
      (rest slice : Text) (b : ℕ)
      → lines_after (lines_from false slice (b ∷ rest)) ≡ 13 ∷ 10 ∷ (slice ++ b ∷ rest)
  after_lines_from [] slice b = ap (λ t. 13 ∷ 10 ∷ t) (append-nil (slice ++ b ∷ []))
  after_lines_from (c ∷ rest) slice b =
      if-elim (λ lines. lines_after lines ≡ 13 ∷ 10 ∷ (slice ++ b ∷ c ∷ rest)) (b == 13 && c == 10)
        _ _
        (λ e.
          let (b_cr, c_lf) = both (b == 13) (c == 10) e in
          ap (λ t. 13 ∷ 10 ∷ (slice ++ t)) (after_skip rest c)
          ∙ cc (sym ((==_iff b 13).0 b_cr), sym ((==_iff c 10).0 c_lf)))
        (λ e.
          after_lines_from rest (slice ++ b ∷ []) c
          ∙ ap (λ t. 13 ∷ 10 ∷ t) (append_assoc slice (b ∷ []) (c ∷ rest)))

  after_skip : (rest : Text) (c : ℕ) → lines_after (lines_from true [] (c ∷ rest)) ≡ 13 ∷ 10 ∷ rest
  after_skip [] c = refl
  after_skip (d ∷ rest) c = after_lines_from rest [] d

-- The lines of a buffer that is not empty, with the separator between them, are the buffer again.
pub create_line_iterator-join :
    (b : ℕ) (rest : Text) → join (create_line_iterator (b ∷ rest)) ≡ b ∷ rest
unfolding create_line_iterator
create_line_iterator-join b rest =
    join_of_after (lines_from false [] (b ∷ rest)) (b ∷ rest) (after_lines_from rest [] b)

-- A line and a separator are read.
line_read :
    (line slice rest : Text)
    → IsLine line
    → lines_from false slice (line ++ 13 ∷ 10 ∷ rest)
      ≡ (slice ++ line) ∷ lines_from true [] (10 ∷ rest)
unfolding lines_from
line_read [] slice rest h = ap (λ l. l ∷ lines_from true [] (10 ∷ rest)) (sym (append-nil slice))
line_read (b ∷ []) slice rest h =
    if-elim (λ lines. lines ≡ (slice ++ b ∷ []) ∷ lines_from true [] (10 ∷ rest))
      (b == 13 && 13 == 10) _ _
      (λ e. absurd (clash (b == 13 && 13 == 10) e (never_lf (b == 13) 13 refl))) (λ e. refl)
line_read (b ∷ c ∷ line) slice rest h =
    let (apart, h') = and_not (b == 13 && c == 10) (is_line (c ∷ line)) h in
    if-elim (λ lines. lines ≡ (slice ++ b ∷ c ∷ line) ∷ lines_from true [] (10 ∷ rest))
      (b == 13 && c == 10) _ _ (λ e. absurd (clash (b == 13 && c == 10) e apart))
      (λ e.
        line_read (c ∷ line) (slice ++ b ∷ []) rest h'
        ∙ ap (λ l. l ∷ lines_from true [] (10 ∷ rest)) (append_assoc slice (b ∷ []) (c ∷ line)))

-- The last line is read.
last_read :
    (rest slice : Text) (b : ℕ)
    → IsLine (b ∷ rest)
    → lines_from false slice (b ∷ rest) ≡ (slice ++ b ∷ rest) ∷ []
unfolding lines_from
last_read [] slice b h = refl
last_read (c ∷ rest) slice b h =
    let (apart, h') = and_not (b == 13 && c == 10) (is_line (c ∷ rest)) h in
    if-elim (λ lines. lines ≡ (slice ++ b ∷ c ∷ rest) ∷ []) (b == 13 && c == 10) _ _
      (λ e. absurd (clash (b == 13 && c == 10) e apart))
      (λ e.
        last_read rest (slice ++ b ∷ []) c h'
        ∙ ap (λ l. l ∷ []) (append_assoc slice (b ∷ []) (c ∷ rest)))

read_after_separator :
    (line : Text) (lines : List Text)
    → All IsLine (line ∷ lines)
    → lines_from true [] (10 ∷ join (line ∷ lines)) ≡ line ∷ lines
unfolding lines_from
read_after_separator [] [] h = refl
read_after_separator (b ∷ line) [] h =
    ap (λ t. lines_from false [] (b ∷ t)) (append-nil line) ∙ last_read line [] b h.0
read_after_separator [] (next ∷ lines) h = ap (λ l. [] ∷ l) (read_after_separator next lines h.1)
read_after_separator (b ∷ line) (next ∷ lines) h =
    line_read (b ∷ line) [] (join (next ∷ lines)) h.0
    ∙ ap (λ l. (b ∷ line) ∷ l) (read_after_separator next lines h.1)

-- Lines come back from the text that joins them, if that text is not empty.
pub create_line_iterator_of_join :
    (line : Text) (lines : List Text)
    → All IsLine (line ∷ lines)
    → is_empty (join (line ∷ lines)) ≡ false
    → create_line_iterator (join (line ∷ lines)) ≡ line ∷ lines
unfolding create_line_iterator lines_from
create_line_iterator_of_join [] [] h e = cc
create_line_iterator_of_join [] (next ∷ lines) h e = read_after_separator [] (next ∷ lines) h
create_line_iterator_of_join (b ∷ line) lines h e = read_after_separator (b ∷ line) lines h
