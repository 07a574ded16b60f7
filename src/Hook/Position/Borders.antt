-- ===== src/Hook/Position/Borders.antt =====
-- The borders of a window in the arithmetic of `SafeMoveWindow`.
use seamlessrdp.Base.{ℕ, ◌+◌, ◌<◌, ◌^◌, ap, ◌∙◌, ◌≡◌, refl, true, some, arith}
use seamlessrdp.Base.Int.{
  ℤ, eq_ℤ, eq_ℤ-refl, eq_ℤ_iff, parts-+ℤ, parts--ℤ, eq_ℤ-parts, ◌+ℤ◌, ◌-ℤ◌, add_i32, IsWithin,
  IsWithin-sum, IsWithin-difference, wrap_within,
}
use seamlessrdp.Hook.{Rect}
use seamlessrdp.Hook.Position.{Answers, equal_rect, Place, rect_of, add_borders}

pub equal_rect_refl : (r : Rect) → equal_rect r r ≡ true
unfolding equal_rect
equal_rect_refl r =
    rw (eq_ℤ-refl r.left, eq_ℤ-refl r.top, eq_ℤ-refl r.right, eq_ℤ-refl r.bottom) refl

-- The visible part of a window at `r` that has the borders between `full` and `frame`.
unfoldable pub inset : Rect → Rect → Rect → Rect
inset full frame r = record {
  left = r.left +ℤ (frame.left -ℤ full.left);
  top = r.top +ℤ (frame.top -ℤ full.top);
  right = r.right -ℤ (full.right -ℤ frame.right);
  bottom = r.bottom -ℤ (full.bottom -ℤ frame.bottom);
}

near_side : (x b : ℤ) → (x -ℤ b) +ℤ b ≡ x
near_side x b = eq_ℤ-parts _ _ (omega (arith, parts--ℤ x b, parts-+ℤ (x -ℤ b) b))

far_side : (x w a b : ℤ) → ((x -ℤ a) +ℤ (w +ℤ b +ℤ a)) -ℤ b ≡ x +ℤ w
far_side x w a b = eq_ℤ-parts _ _ (
    omega (
      arith,
      parts--ℤ x a,
      parts-+ℤ w b,
      parts-+ℤ (w +ℤ b) a,
      parts-+ℤ (x -ℤ a) (w +ℤ b +ℤ a),
      parts--ℤ ((x -ℤ a) +ℤ (w +ℤ b +ℤ a)) b,
      parts-+ℤ x w,
    ))

pub width_of : (x w : ℤ) → (x +ℤ w) -ℤ x ≡ w
width_of x w = eq_ℤ-parts _ _ (omega (arith, parts-+ℤ x w, parts--ℤ (x +ℤ w) x))

far_side_below : (y h a b : ℤ) → ((y -ℤ a) +ℤ (h +ℤ a +ℤ b)) -ℤ b ≡ y +ℤ h
far_side_below y h a b = eq_ℤ-parts _ _ (
    omega (
      arith,
      parts--ℤ y a,
      parts-+ℤ h a,
      parts-+ℤ (h +ℤ a) b,
      parts-+ℤ (y -ℤ a) (h +ℤ a +ℤ b),
      parts--ℤ ((y -ℤ a) +ℤ (h +ℤ a +ℤ b)) b,
      parts-+ℤ y h,
    ))

moved_near : (r o f : ℤ) → eq_ℤ (r +ℤ (f -ℤ o)) r ≡ eq_ℤ o f
moved_near r o f =
    ground (arith, eq_ℤ_iff (r +ℤ (f -ℤ o)) r, eq_ℤ_iff o f, parts--ℤ f o, parts-+ℤ r (f -ℤ o))

moved_far : (r o f : ℤ) → eq_ℤ (r -ℤ (o -ℤ f)) r ≡ eq_ℤ o f
moved_far r o f =
    ground (arith, eq_ℤ_iff (r -ℤ (o -ℤ f)) r, eq_ℤ_iff o f, parts--ℤ o f, parts--ℤ r (o -ℤ f))

pub equal_rect-inset :
    (full frame r : Rect) → equal_rect (inset full frame r) r ≡ equal_rect full frame
unfolding equal_rect inset
equal_rect-inset full frame r =
    rw
      (
        moved_near r.left full.left frame.left,
        moved_near r.top full.top frame.top,
        moved_far r.right full.right frame.right,
        moved_far r.bottom full.bottom frame.bottom,
      )
      refl

abbrev pub bordered : Rect → Rect → Answers
bordered full frame = record { frame = some frame; outer = some full }

-- The coordinates are no further from 0 than 2 ^ 27.
pub record IsNear (full frame : Rect) (p : Place) : Type 0 where
  pub x : IsWithin (2 ^ 27) p.x
  pub y : IsWithin (2 ^ 27) p.y
  pub width : IsWithin (2 ^ 27) p.width
  pub height : IsWithin (2 ^ 27) p.height
  pub border_top : IsWithin (2 ^ 27) (frame.top -ℤ full.top)
  pub border_left : IsWithin (2 ^ 27) (frame.left -ℤ full.left)
  pub border_right : IsWithin (2 ^ 27) (full.right -ℤ frame.right)
  pub border_bottom : IsWithin (2 ^ 27) (full.bottom -ℤ frame.bottom)

-- the place with the borders, in integers
abbrev around : Rect → Rect → Place → Place
around full frame p = record {
  x = p.x -ℤ (frame.left -ℤ full.left);
  y = p.y -ℤ (frame.top -ℤ full.top);
  width = p.width +ℤ (full.right -ℤ frame.right) +ℤ (frame.left -ℤ full.left);
  height = p.height +ℤ (frame.top -ℤ full.top) +ℤ (full.bottom -ℤ frame.bottom);
}

-- the corners of a place, in integers
abbrev pub corners : Place → Rect
corners p = record { left = p.x; top = p.y; right = p.x +ℤ p.width; bottom = p.y +ℤ p.height }

two_steps :
    {m n k : ℕ} (a b c : ℤ)
    → IsWithin m a
    → IsWithin n b
    → IsWithin k c
    → m + n + k < 2 ^ 31
    → add_i32 (add_i32 a b) c ≡ a +ℤ b +ℤ c
two_steps {m = m} {n = n} a b c h k l small =
    let first = IsWithin-sum a b h k in
    rw (wrap_within (a +ℤ b) first (omega (arith, small)))
      (wrap_within (a +ℤ b +ℤ c) (IsWithin-sum (a +ℤ b) c first l) small)

add_borders-around :
    (full frame : Rect) (p : Place)
    → IsNear full frame p
    → (add_borders (bordered full frame) p).0 ≡ around full frame p
unfolding add_borders
add_borders-around full frame p n =
    rw
      (
        wrap_within _ n.border_top (omega arith),
        wrap_within _ n.border_left (omega arith),
        wrap_within _ n.border_right (omega arith),
        wrap_within _ n.border_bottom (omega arith),
        wrap_within _ (IsWithin-difference p.x _ n.x n.border_left) (omega arith),
        wrap_within _ (IsWithin-difference p.y _ n.y n.border_top) (omega arith),
        two_steps p.width _ _ n.width n.border_right n.border_left (omega arith),
        two_steps p.height _ _ n.height n.border_top n.border_bottom (omega arith),
      )
      refl

rect_of-around :
    (full frame : Rect) (p : Place)
    → IsNear full frame p
    → rect_of (around full frame p) ≡ corners (around full frame p)
rect_of-around full frame p n =
    rw
      (
        wrap_within _
            (IsWithin-sum (around full frame p).x (around full frame p).width
              (IsWithin-difference p.x _ n.x n.border_left)
              (IsWithin-sum _ _ (IsWithin-sum p.width _ n.width n.border_right) n.border_left))
            (omega arith),
        wrap_within _
            (IsWithin-sum (around full frame p).y (around full frame p).height
              (IsWithin-difference p.y _ n.y n.border_top)
              (IsWithin-sum _ _ (IsWithin-sum p.height _ n.height n.border_top) n.border_bottom))
            (omega arith),
      )
      refl

rect_of-corners : (full frame : Rect) (p : Place) → IsNear full frame p → rect_of p ≡ corners p
rect_of-corners full frame p n =
    rw
      (
        wrap_within _ (IsWithin-sum p.x p.width n.x n.width) (omega arith),
        wrap_within _ (IsWithin-sum p.y p.height n.y n.height) (omega arith),
      )
      refl

inset-around :
    (full frame : Rect) (p : Place) → inset full frame (corners (around full frame p)) ≡ corners p
unfolding inset
inset-around full frame p =
    rw
      (
        near_side p.x (frame.left -ℤ full.left),
        near_side p.y (frame.top -ℤ full.top),
        far_side p.x p.width (frame.left -ℤ full.left) (full.right -ℤ frame.right),
        far_side_below p.y p.height (frame.top -ℤ full.top) (full.bottom -ℤ frame.bottom),
      )
      refl

-- The window that is moved to the place with its borders shows the place that was asked for.
pub add_borders-inset :
    (full frame : Rect) (p : Place)
    → IsNear full frame p
    → inset full frame (rect_of (add_borders (bordered full frame) p).0) ≡ corners p
add_borders-inset full frame p n =
    ap (λ q. inset full frame (rect_of q)) (add_borders-around full frame p n)
    ∙ ap (inset full frame) (rect_of-around full frame p n)
    ∙ inset-around full frame p
