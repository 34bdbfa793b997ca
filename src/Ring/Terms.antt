-- ===== src/Ring/Terms.antt =====
-- Ring terms over numbered variables, and their value in a ring.
use ed301_eddsa.Base.{ℕ, List, get_or}
use ed301_eddsa.Ring.{CommRing}

pub data Term : Type 0 where
  var : ℕ → Term
  zero_term : Term
  one_term : Term
  plus : Term → Term → Term
  times : Term → Term → Term
  minus : Term → Term
  less : Term → Term → Term
  squared : Term → Term

infixl 65 ◌:+◌ ◌:-◌
infixl 70 ◌:*◌
abbrev pub ◌:+◌ : Term → Term → Term
a :+ b = plus a b

abbrev pub ◌:*◌ : Term → Term → Term
a :* b = times a b

abbrev pub ◌:-◌ : Term → Term → Term
a :- b = less a b

module _ {A : Type 0} ⦃r : CommRing A⦄ where
  -- The value of a term where the variables have the values of the list.
  abbrev pub value : List A → Term → A
  value ρ (var i) = get_or ρ i r.zero_elem
  value ρ zero_term = r.zero_elem
  value ρ one_term = r.one_elem
  value ρ (plus a b) = r.add (value ρ a) (value ρ b)
  value ρ (times a b) = r.mul (value ρ a) (value ρ b)
  value ρ (minus a) = r.neg (value ρ a)
  value ρ (less a b) = r.sub (value ρ a) (value ρ b)
  value ρ (squared a) = r.square (value ρ a)
