-- ===== src/Srcdiff/Positions.antt =====
-- Offsets, lines and columns: _compute_line_starts, _offset_to_line_col and _offset_range_to_span of
-- srcdiffvisual/workflow/_source_renderer.py. `bisect_right` on a sorted list counts the elements
-- that are at most the given one.
use Prim.Native.Char.{Char, code}
use src_visual.Common.{
  ℕ, zero, suc, ◌+◌, ◌-◌, ◌≡◌, ◌≤◌, refl, ap, sym, ◌∙◌, String, Bool, true, List, [], ◌∷◌, leb,
  ◌==◌, max, if◌then◌else◌, map, arith, inl, inr, Bool-cases,
}
use src_visual.Common.Dict.{Dict}

pub record SourceSpan : Type 0 where
  pub start_line : ℕ
  pub start_col : ℕ
  pub end_line : ℕ
  pub end_col : ℕ

abbrev pub is_newline : Char → Bool
is_newline c = code c == 10

-- The starts of the lines after the one that the text at `index` lies on.
unfoldable pub starts_from : ℕ → String → List ℕ
starts_from index String.[] = []
starts_from index (String.◌∷◌ c s) =
    let rest = starts_from (suc index) s in if is_newline c then suc index ∷ rest else rest

unfoldable pub compute_line_starts : String → List ℕ
unfolding starts_from
compute_line_starts source_code = 0 ∷ starts_from 0 source_code

unfoldable pub bisect_right : List ℕ → ℕ → ℕ
bisect_right [] x = 0
bisect_right (y ∷ ys) x = let rest = bisect_right ys x in if leb y x then suc rest else 0

-- `line_starts[index]`; the index is in range.
unfoldable pub line_start_at : List ℕ → ℕ → ℕ
line_start_at [] k = 0
line_start_at (y ∷ ys) zero = y
line_start_at (y ∷ ys) (suc k) = line_start_at ys k

unfoldable pub offset_to_line_col : ℕ → List ℕ → ℕ × ℕ
unfolding bisect_right line_start_at
offset_to_line_col offset line_starts =
    let line_index = bisect_right line_starts offset - 1 in
    (line_index + 1, offset - line_start_at line_starts line_index + 1)

unfoldable pub offset_range_to_span : ℕ → ℕ → List ℕ → SourceSpan
unfolding offset_to_line_col
offset_range_to_span start_offset end_offset line_starts =
    let (start_line, start_col) = offset_to_line_col start_offset line_starts in
    let (end_line, end_col) = offset_to_line_col (max (end_offset - 1) start_offset) line_starts in
    record {
      start_line = start_line;
      start_col = start_col;
      end_line = end_line;
      end_col = end_col;
    }

abbrev pub span_of : List ℕ → String × (ℕ × ℕ) → String × SourceSpan
span_of line_starts (path, (start, end)) = (path, offset_range_to_span start end line_starts)

unfoldable pub ranges_to_spans : Dict (ℕ × ℕ) → String → Dict SourceSpan
unfolding compute_line_starts offset_range_to_span
ranges_to_spans ranges source_code = map (span_of (compute_line_starts source_code)) ranges

-- A cursor that reads n characters from a line and a column, one by one.
unfoldable pub advance : ℕ → ℕ → String → ℕ → ℕ × ℕ
advance line col s zero = (line, col)
advance line col String.[] (suc n) = (line, col + suc n)
advance line col (String.◌∷◌ c s) (suc n) =
    if is_newline c then advance (suc line) 1 s n else advance line (suc col) s n

advance-suc :
    (line col : ℕ) (s : String) (n : ℕ)
    → advance (suc line) col s n ≡ (suc (advance line col s n).0, (advance line col s n).1)
unfolding advance
advance-suc line col s zero = refl
advance-suc line col String.[] (suc n) = refl
advance-suc line col (String.◌∷◌ c s) (suc n) = elim (Bool-cases (is_newline c)) [
  | inl h ↦ rw h (advance-suc (suc line) 1 s n)
  | inr h ↦ rw h (advance-suc line (suc col) s n)
]

leb-true : (a b : ℕ) → a ≤ b → leb a b ≡ true
leb-true a b h = ground arith

minus_one : (n : ℕ) → suc n - 1 ≡ n
minus_one n = omega arith

bisect_right-starts_from : (i x : ℕ) (s : String) → x ≤ i → bisect_right (starts_from i s) x ≡ 0
unfolding bisect_right starts_from
bisect_right-starts_from i x String.[] h = refl
bisect_right-starts_from i x (String.◌∷◌ c s) h =
    ground (arith, bisect_right-starts_from (suc i) x s (omega arith))

-- Past the next line's start, the position is that among the later lines, a line further down.
offset_to_line_col-cons :
    (x y : ℕ) (ys : List ℕ) (offset : ℕ)
    → x ≤ y
    → y ≤ offset
    → offset_to_line_col offset (x ∷ y ∷ ys)
      ≡ (suc (offset_to_line_col offset (y ∷ ys)).0, (offset_to_line_col offset (y ∷ ys)).1)
unfolding offset_to_line_col
offset_to_line_col-cons x y ys offset h k =
    rw
      (
        leb-true x offset (omega arith),
        leb-true y offset k,
        minus_one (suc (bisect_right ys offset)),
        minus_one (bisect_right ys offset),
      )
      (ap (λ (n : ℕ). (n, offset - line_start_at (y ∷ ys) (bisect_right ys offset) + 1))
        (omega arith))

-- On the first of the lines.
offset_to_line_col_here :
    (start : ℕ) (starts : List ℕ) (offset : ℕ)
    → start ≤ offset
    → bisect_right starts offset ≡ 0
    → offset_to_line_col offset (start ∷ starts) ≡ (1, offset - start + 1)
unfolding offset_to_line_col
offset_to_line_col_here start starts offset h k = rw (leb-true start offset h, k) refl

offset_to_line_col_from :
    (start i offset col : ℕ) (s : String) (n : ℕ)
    → start ≤ i
    → offset ≡ i + n
    → col + start ≡ i + 1
    → offset_to_line_col offset (start ∷ starts_from i s) ≡ advance 1 col s n
unfolding starts_from advance bisect_right
offset_to_line_col_from start i offset col s zero h e c =
    offset_to_line_col_here start (starts_from i s) offset (omega arith)
      (bisect_right-starts_from i offset s (omega arith))
    ∙ ap (λ (k : ℕ). (1, k)) (omega arith)
offset_to_line_col_from start i offset col String.[] (suc n) h e c =
    offset_to_line_col_here start [] offset (omega arith) refl
    ∙ ap (λ (k : ℕ). (1, k)) (omega arith)
offset_to_line_col_from start i offset col (String.◌∷◌ ch s) (suc n) h e c =
    elim (Bool-cases (is_newline ch)) [
      | inl newline ↦ rw newline (
          offset_to_line_col-cons start (suc i) (starts_from (suc i) s) offset (omega arith)
            (omega arith)
          ∙ (ap (λ (p : ℕ × ℕ). (suc p.0, p.1))
                (offset_to_line_col_from (suc i) (suc i) offset 1 s n (omega arith) (omega arith)
                  (omega arith))
              ∙ sym (advance-suc 1 1 s n)))
      | inr other ↦ rw other (
          offset_to_line_col_from start (suc i) offset (suc col) s n (omega arith) (omega arith)
            (omega arith))
    ]

-- The line and the column of an offset are those of a cursor that starts at line 1, column 1 and
-- reads as many characters of the source, each line feed taking it to the next line's first column.
pub offset_to_line_col_lem :
    (source_code : String) (offset : ℕ)
    → offset_to_line_col offset (compute_line_starts source_code) ≡ advance 1 1 source_code offset
unfolding compute_line_starts
offset_to_line_col_lem s offset =
    offset_to_line_col_from 0 0 offset 1 s offset (omega arith) (omega arith) (omega arith)
