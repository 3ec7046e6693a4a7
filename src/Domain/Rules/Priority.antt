-- ===== src/Domain/Rules/Priority.antt =====
-- The comparison of SelectDailyCandidates is a strict weak order.
use fast_task.Base.{true, false, ◌≡◌, arith, ◌≤ℤ◌, str_lt, str_lt_asym, str_ge_trans}
use fast_task.Domain.Rules.{Candidate, precedes}
use fast_task.Domain.Rules.Order.{IsStrictWeak}

-- The comparison of one field and then of the rest, as a case split on the field's order.
precedes_asym : (a b : Candidate) → precedes a b ≡ true → precedes b a ≡ false
unfolding precedes
precedes_asym a b h = ground (arith, str_lt_asym a.id b.id)

-- `b` does not precede `a`, field by field.
record AtLeast (a b : Candidate) : Type 0 where
  priority : b.priority ≤ℤ a.priority
  position : a.priority ≤ℤ b.priority → a.position ≤ℤ b.position
  id : a.priority ≤ℤ b.priority → b.position ≤ℤ a.position → str_lt b.id a.id ≡ false

precedes-AtLeast : (a b : Candidate) → precedes b a ≡ false → AtLeast a b
unfolding precedes
precedes-AtLeast a b h = record {
  priority = ground arith;
  position = λ p. ground arith;
  id = λ p q. ground arith;
}

AtLeast-precedes : (a b : Candidate) → AtLeast a b → precedes b a ≡ false
unfolding precedes
AtLeast-precedes a b h = ground arith

AtLeast-trans : (a b c : Candidate) → AtLeast a b → AtLeast b c → AtLeast a c
AtLeast-trans a b c h k = record {
  priority = omega arith;
  position = λ p. omega (arith, h.position (omega arith), k.position (omega arith));
  id = λ p q.
      let hp = h.position (omega arith) in
      let kp = k.position (omega arith) in
      str_ge_trans a.id b.id c.id (h.id (omega arith) (omega arith))
        (k.id (omega arith) (omega arith));
}

precedes_ge_trans :
    (a b c : Candidate) → precedes b a ≡ false → precedes c b ≡ false → precedes c a ≡ false
precedes_ge_trans a b c h k =
    AtLeast-precedes a c (AtLeast-trans a b c (precedes-AtLeast a b h) (precedes-AtLeast b c k))

pub precedes-IsStrictWeak : IsStrictWeak precedes
precedes-IsStrictWeak = record { asym = precedes_asym; ge_trans = precedes_ge_trans }
