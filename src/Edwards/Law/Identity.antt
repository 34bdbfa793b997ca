-- ===== src/Edwards/Law/Identity.antt =====
-- The polynomial identities behind the associativity of the affine addition law, in any ring. The
-- points are (x1, y1), (x2, y2) and (x3, y3), and a sum is (e / g, h / f) with
--   e = x y' + y x',  f = 1 - d x y x' y',  g = 1 + d x y x' y',  h = y y' - a x x'.
use ed301_eddsa.Base.{◌≡◌, refl, List}
use ed301_eddsa.Ring.{CommRing}
use ed301_eddsa.Ring.Terms.{Term, var, one_term, squared, ◌:+◌, ◌:-◌, ◌:*◌, value}
use ed301_eddsa.Ring.Solver.{solve}

abbrev pub a : Term
a = var 0

abbrev pub d : Term
d = var 1

abbrev pub x1 : Term
x1 = var 2

abbrev pub y1 : Term
y1 = var 3

abbrev pub x2 : Term
x2 = var 4

abbrev pub y2 : Term
y2 = var 5

abbrev pub x3 : Term
x3 = var 6

abbrev pub y3 : Term
y3 = var 7

-- The parts of a sum of two points.
abbrev pub e_of : Term → Term → Term → Term → Term
e_of x y x' y' = x :* y' :+ y :* x'

abbrev pub cross_of : Term → Term → Term → Term → Term
cross_of x y x' y' = d :* (x :* y) :* (x' :* y')

abbrev pub f_of : Term → Term → Term → Term → Term
f_of x y x' y' = one_term :- cross_of x y x' y'

abbrev pub g_of : Term → Term → Term → Term → Term
g_of x y x' y' = one_term :+ cross_of x y x' y'

abbrev pub h_of : Term → Term → Term → Term → Term
h_of x y x' y' = y :* y' :- a :* (x :* x')

-- The two sides of the equation of the curve.
abbrev pub left_of : Term → Term → Term
left_of x y = a :* squared x :+ squared y

abbrev pub right_of : Term → Term → Term
right_of x y = one_term :+ d :* squared (x :* y)

-- What the proofs combine the three equations with.
abbrev pub k_part : Term
k_part = a :* squared x3 :- one_term

abbrev pub m_part : Term
m_part = squared y3 :- one_term

abbrev pub u_part : Term
u_part = one_term :- d :* squared x2

abbrev pub w_part : Term
w_part = a :- d :* squared y2

abbrev pub first_u : Term
first_u =
    squared x2 :* y2 :* y3 :* m_part
    :+ x2 :* squared y2 :* x3 :* k_part
    :- y2 :* squared y2 :* squared x3 :* y3 :* u_part
    :- x2 :* squared x2 :* x3 :* squared y3 :* w_part

abbrev pub first_v : Term
first_v =
    y2 :* squared y2 :* x3 :* squared y3 :* u_part
    :+ x2 :* squared y2 :* y3 :* m_part
    :- a :* squared x2 :* y2 :* x3 :* k_part
    :- a :* x2 :* squared x2 :* squared x3 :* y3 :* w_part

abbrev pub crossed : Term
crossed = y2 :* x3 :+ x2 :* y3

abbrev pub twisted : Term
twisted = y2 :* y3 :- a :* x2 :* x3

abbrev pub p_part : Term
p_part = y2 :* x3 :* k_part :- x2 :* y3 :* m_part

abbrev pub q_part : Term
q_part = y2 :* y3 :* m_part :+ a :* x2 :* x3 :* k_part

abbrev pub r_part : Term
r_part = y2 :* squared y2 :* x3 :* u_part :- x2 :* squared x2 :* y3 :* w_part

abbrev pub s_part : Term
s_part = y2 :* squared y2 :* y3 :* u_part :+ a :* x2 :* squared x2 :* x3 :* w_part

abbrev pub y_gap : Term
y_gap = y1 :* (one_term :- squared y1)

abbrev pub x_gap : Term
x_gap = x1 :* (one_term :- a :* squared x1)

abbrev pub u1 : Term
u1 = d :* x2 :* y2 :* (y1 :* first_u :+ x1 :* first_v)

abbrev pub u2 : Term
u2 =
    d
    :* x2
    :* y2
    :* (x_gap :* x3 :* y3 :* twisted
        :- y_gap :* x3 :* y3 :* crossed
        :+ x1 :* squared y1 :* p_part
        :- squared x1 :* y1 :* q_part)

abbrev pub u3 : Term
u3 =
    d
    :* x2
    :* y2
    :* (y_gap :* x2 :* y2 :* crossed
        :+ x_gap :* x2 :* y2 :* twisted
        :- x1 :* squared y1 :* r_part
        :+ squared x1 :* y1 :* s_part)

abbrev pub e12 : Term
e12 = e_of x1 y1 x2 y2

abbrev pub f12 : Term
f12 = f_of x1 y1 x2 y2

abbrev pub g12 : Term
g12 = g_of x1 y1 x2 y2

abbrev pub h12 : Term
h12 = h_of x1 y1 x2 y2

abbrev pub e23 : Term
e23 = e_of x2 y2 x3 y3

abbrev pub f23 : Term
f23 = f_of x2 y2 x3 y3

abbrev pub g23 : Term
g23 = g_of x2 y2 x3 y3

abbrev pub h23 : Term
h23 = h_of x2 y2 x3 y3

-- The first coordinate of the sum of all three, each way, as a fraction.
abbrev pub left_u : Term
left_u = e12 :* f12 :* y3 :+ g12 :* h12 :* x3

abbrev pub left_plus : Term
left_plus = f12 :* g12 :+ d :* (e12 :* h12) :* (x3 :* y3)

abbrev pub right_u : Term
right_u = x1 :* (g23 :* h23) :+ y1 :* (e23 :* f23)

abbrev pub right_plus : Term
right_plus = f23 :* g23 :+ d :* (x1 :* y1) :* (e23 :* h23)

-- The combination of one side of the three equations.
abbrev pub combined : (Term → Term → Term) → Term → Term → Term → Term
combined side t1 t2 t3 = t1 :* side x1 y1 :+ t2 :* side x2 y2 :+ t3 :* side x3 y3

abbrev pub u_left : Term
u_left = left_u :* right_plus :+ combined right_of u1 u2 u3

abbrev pub u_right : Term
u_right = right_u :* left_plus :+ combined left_of u1 u2 u3

-- The same for the second coordinate.
abbrev pub v1 : Term
v1 = d :* x2 :* y2 :* (y1 :* first_v :- a :* x1 :* first_u)

abbrev pub v2 : Term
v2 =
    d
    :* x2
    :* y2
    :* (y_gap :* x3 :* y3 :* twisted
        :+ a :* x_gap :* x3 :* y3 :* crossed
        :+ x1 :* squared y1 :* q_part
        :+ a :* squared x1 :* y1 :* p_part)

abbrev pub v3 : Term
v3 =
    d
    :* x2
    :* y2
    :* (y_gap :* x2 :* y2 :* twisted
        :- a :* x_gap :* x2 :* y2 :* crossed
        :- x1 :* squared y1 :* s_part
        :- a :* squared x1 :* y1 :* r_part)

abbrev pub left_v : Term
left_v = g12 :* h12 :* y3 :- a :* (e12 :* f12 :* x3)

abbrev pub left_minus : Term
left_minus = f12 :* g12 :- d :* (e12 :* h12) :* (x3 :* y3)

abbrev pub right_v : Term
right_v = y1 :* (g23 :* h23) :- a :* (x1 :* (e23 :* f23))

abbrev pub right_minus : Term
right_minus = f23 :* g23 :- d :* (x1 :* y1) :* (e23 :* h23)

abbrev pub v_left : Term
v_left = left_v :* right_minus :+ combined right_of v1 v2 v3

abbrev pub v_right : Term
v_right = right_v :* left_minus :+ combined left_of v1 v2 v3

module _ {A : Type 0} ⦃r : CommRing A⦄ where
  pub u_identity : (ρ : List A) → value ρ u_left ≡ value ρ u_right
  u_identity ρ = solve ρ u_left u_right refl

  pub v_identity : (ρ : List A) → value ρ v_left ≡ value ρ v_right
  v_identity ρ = solve ρ v_left v_right refl
