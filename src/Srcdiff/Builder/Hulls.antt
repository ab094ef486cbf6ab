-- ===== src/Srcdiff/Builder/Hulls.antt =====
-- The span that a node takes from its children: the least one that encloses theirs.
use src_visual.Common.{
  ℤ, pos, negsuc, ◌≡◌, refl, ap, ◌∙◌, Bool, true, ◌&&◌, ◌||◌, some, List, [], ◌∷◌, All, least,
  better, arith, inl, inr, Bool-cases,
}
use src_visual.Common.Sums.{Has}
use src_visual.Srcdiff.Tree.{PositionSpan, int_leb, int_eq, pair_leb}
use src_visual.Srcdiff.Builder.{merge_spans, merged, starts_before, ends_after}

-- A line and a column are not after others.
abbrev pub IsNotAfter : ℤ → ℤ → ℤ → ℤ → Type 0
IsNotAfter line col line' col' =
    (int_leb line line' ≡ true) × (line ≡ line' → int_leb col col' ≡ true)

abbrev pub IsWithin : PositionSpan → PositionSpan → Type 0
IsWithin outer inner =
    IsNotAfter outer.start_line outer.start_col inner.start_line inner.start_col
    × IsNotAfter inner.end_line inner.end_col outer.end_line outer.end_col

-- The span encloses all of the spans, starts where one of them starts, and ends where one ends.
pub record IsHull (spans : List PositionSpan) (s : PositionSpan) : Type 0 where
  pub encloses : All (IsWithin s) spans
  pub starts :
      (t : PositionSpan) × Has t spans × (s.start_line ≡ t.start_line) × (s.start_col ≡ t.start_col)
  pub ends : (t : PositionSpan) × Has t spans × (s.end_line ≡ t.end_line) × (s.end_col ≡ t.end_col)

int_leb_total : (a b : ℤ) → (int_leb a b || int_leb b a) ≡ true
int_leb_total (pos m) (pos n) = ground arith
int_leb_total (pos m) (negsuc n) = refl
int_leb_total (negsuc m) (pos n) = refl
int_leb_total (negsuc m) (negsuc n) = ground arith

int_eq-leb : (a b : ℤ) → int_eq a b ≡ (int_leb a b && int_leb b a)
int_eq-leb (pos m) (pos n) = ground arith
int_eq-leb (pos m) (negsuc n) = refl
int_eq-leb (negsuc m) (pos n) = refl
int_eq-leb (negsuc m) (negsuc n) = ground arith

int_leb_trans : (a b c : ℤ) → int_leb a b ≡ true → int_leb b c ≡ true → int_leb a c ≡ true
int_leb_trans (pos m) (pos n) (pos k) h i = ground arith
int_leb_trans (pos m) (pos n) (negsuc k) h i = i
int_leb_trans (pos m) (negsuc n) c h i = cc
int_leb_trans (negsuc m) (pos n) (pos k) h i = refl
int_leb_trans (negsuc m) (pos n) (negsuc k) h i = cc
int_leb_trans (negsuc m) (negsuc n) (pos k) h i = refl
int_leb_trans (negsuc m) (negsuc n) (negsuc k) h i = ground arith

int_eq_sound : (a b : ℤ) → int_eq a b ≡ true → a ≡ b
int_eq_sound (pos m) (pos n) h = ap pos (ground arith)
int_eq_sound (pos m) (negsuc n) h = cc
int_eq_sound (negsuc m) (pos n) h = cc
int_eq_sound (negsuc m) (negsuc n) h = ap negsuc (ground arith)

pair_leb_total : (a b c d : ℤ) → (pair_leb a b c d || pair_leb c d a b) ≡ true
pair_leb_total a b c d =
    ground (arith, int_eq-leb a c, int_eq-leb c a, int_leb_total a c, int_leb_total b d)

pair_leb_trans :
    (a b c d e f : ℤ) → pair_leb a b c d ≡ true → pair_leb c d e f ≡ true → pair_leb a b e f ≡ true
pair_leb_trans a b c d e f h i = ground (
  arith,
  int_eq-leb a c,
  int_eq-leb c e,
  int_eq-leb a e,
  int_leb_trans a c e,
  int_leb_trans c e a,
  int_leb_trans e a c,
  int_leb_total a e,
  int_leb_trans b d f,
)

pair_leb-IsNotAfter : (a b c d : ℤ) → pair_leb a b c d ≡ true → IsNotAfter a b c d
pair_leb-IsNotAfter a b c d h = (
  ground (arith, int_eq-leb a c),
  λ same.
      ground
        (arith, int_eq-leb a c, int_leb_total a a, ap (int_leb a) same, ap (λ z. int_leb z a) same),
)

All-map :
    {A : Type 0} {P Q : A → Type 0} (f : (x : A) → P x → Q x) (xs : List A) → All P xs → All Q xs
All-map f [] ps = tt
All-map f (x ∷ xs) (p, ps) = (f x p, All-map f xs ps)

module _ {A : Type 0} (le : A → A → Bool) (total : (x y : A) → (le x y || le y x) ≡ true)
    (trans : (x y z : A) → le x y ≡ true → le y z ≡ true → le x z ≡ true) where
  least_lem :
      (x : A) (xs : List A)
      → (m : A) × (least le (x ∷ xs) ≡ some m) × Has m (x ∷ xs) × All (λ y. le m y ≡ true) (x ∷ xs)
  least_lem x [] = (x, refl, inl refl, (ground (arith, total x x), tt))
  least_lem x (y ∷ xs) =
      let (m, e, at, below) = least_lem y xs in
      elim (Bool-cases (le x m)) [
        | inl before ↦ (
          x,
          ap (λ o. some (better le x o)) e ∙ rw before refl,
          inl refl,
          (ground (arith, total x x), All-map (λ z h. trans x m z before h) (y ∷ xs) below),
        )
        | inr after ↦ (
          m,
          ap (λ o. some (better le x o)) e ∙ rw after refl,
          inr at,
          (ground (arith, total x m, after), below),
        )
      ]

All-both :
    {A : Type 0} {P Q R : A → Type 0} (f : (x : A) → P x → Q x → R x) (xs : List A)
    → All P xs
    → All Q xs
    → All R xs
All-both f [] ps qs = tt
All-both f (x ∷ xs) (p, ps) (q, qs) = (f x p q, All-both f xs ps qs)

pub merge_spans-IsHull :
    (s : PositionSpan) (spans : List PositionSpan)
    → (t : PositionSpan) × (merge_spans (s ∷ spans) ≡ some t) × IsHull (s ∷ spans) t
unfolding merge_spans
merge_spans-IsHull s spans =
    let (a, at_a, has_a, below) =
      least_lem starts_before
        (λ x y. pair_leb_total x.start_line x.start_col y.start_line y.start_col)
        (λ x y z.
          pair_leb_trans x.start_line x.start_col y.start_line y.start_col z.start_line z.start_col)
        s spans in
    let (b, at_b, has_b, above) =
      least_lem ends_after (λ x y. pair_leb_total y.end_line y.end_col x.end_line x.end_col ∙ refl)
        (λ x y z h i.
          pair_leb_trans z.end_line z.end_col y.end_line y.end_col x.end_line x.end_col i h)
        s spans in
    (
      record {
        start_line = a.start_line;
        start_col = a.start_col;
        end_line = b.end_line;
        end_col = b.end_col;
      },
      ap (λ o. merged o (least ends_after (s ∷ spans))) at_a ∙ ap (merged (some a)) at_b,
      record {
        encloses =
            All-both
              (λ t h i. (
                pair_leb-IsNotAfter a.start_line a.start_col t.start_line t.start_col h,
                pair_leb-IsNotAfter t.end_line t.end_col b.end_line b.end_col i,
              ))
              (s ∷ spans) below above;
        starts = (a, has_a, refl, refl);
        ends = (b, has_b, refl, refl);
      },
    )
