-- ===== src/Tasks/Dependencies/Marks.antt =====
-- How the marks of the search grow, and the counts that bound it.
use fast_task.Base.{
  ℕ, suc, ◌≤◌, ◌<◌, String, ◌≡◌, ◌≢◌, ◌↔◌, inl, inr, List, [], ◌∷◌, In, arith, refl, str_eq, eq_iff,
  if◌then◌else◌, ◌==◌, length,
}
use fast_task.Tasks.Dependencies.{Marks, mark}

pub mark-put :
    (id v : String) (m : ℕ) (st : Marks)
    → mark v ((id, m) ∷ st) ≡ (if str_eq id v then m else mark v st)
mark-put id v m st = refl

-- How many of the IDs are finished, and how many have no mark.
abbrev pub done : List String → Marks → ℕ
done [] st = 0
done (u ∷ us) st = if mark u st == 2 then suc (done us st) else done us st

abbrev pub white : List String → Marks → ℕ
white [] st = 0
white (u ∷ us) st = if mark u st == 0 then suc (white us st) else white us st

-- The marks after a call, against those before it: what was finished stays finished, what is being
-- visited is the same, and what had a mark has one.
pub record After (st st' : Marks) : Type 0 where
  pub kept : (v : String) → mark v st ≡ 2 → mark v st' ≡ 2
  pub busy : (v : String) → (mark v st ≡ 1) ↔ (mark v st' ≡ 1)
  pub seen : (v : String) → mark v st' ≡ 0 → mark v st ≡ 0

pub After-refl : (st : Marks) → After st st
After-refl st = record { kept = λ v h. h; busy = λ v. (λ h. h, λ h. h); seen = λ v h. h }

pub After-trans : {a b c : Marks} → After a b → After b c → After a c
After-trans f g = record {
  kept = λ v h. g.kept v (f.kept v h);
  busy = λ v. (λ h. (g.busy v).0 ((f.busy v).0 h), λ h. (f.busy v).1 ((g.busy v).1 h));
  seen = λ v h. f.seen v (g.seen v h);
}

-- A whole visit: marked 1, other calls, marked 2.
pub After-visit :
    (id : String) (st st' : Marks)
    → mark id st ≡ 0
    → After ((id, 1) ∷ st) st'
    → After st ((id, 2) ∷ st')
After-visit id st st' e a = record {
  kept = λ v h. ground (arith, h, e, a.kept v, eq_iff id v);
  busy = λ v. (
    λ h. ground (arith, h, e, (a.busy v).0, eq_iff id v),
    λ h. ground (arith, h, e, (a.busy v).1, eq_iff id v),
  );
  seen = λ v h. ground (arith, h, e, a.seen v, eq_iff id v);
}

module _ (st st' : Marks) where
  pub done_mono :
      (us : List String)
      → ((v : String) → mark v st ≡ 2 → mark v st' ≡ 2)
      → done us st ≤ done us st'
  done_mono [] f = omega arith
  done_mono (u ∷ us) f = ground (arith, f u, done_mono us f)

  pub white_mono :
      (us : List String)
      → ((v : String) → mark v st' ≡ 0 → mark v st ≡ 0)
      → white us st' ≤ white us st
  white_mono [] f = omega arith
  white_mono (u ∷ us) f = ground (arith, f u, white_mono us f)

module _ (id : String) (st : Marks) where
  keeps_done : mark id st ≢ 2 → (v : String) → mark v st ≡ 2 → mark v ((id, 2) ∷ st) ≡ 2
  keeps_done n v h = ground (arith, h, eq_iff id v)

  pub done-finish :
      (us : List String) → In id us → mark id st ≢ 2 → done us st < done us ((id, 2) ∷ st)
  done-finish [] m n = absurd m
  done-finish (u ∷ us) (inl p) n =
      ground (arith, n, p, eq_iff id u, done_mono st ((id, 2) ∷ st) us (keeps_done n))
  done-finish (u ∷ us) (inr m) n = ground (arith, n, eq_iff id u, done-finish us m n)

  keeps_white : mark id st ≡ 0 → (v : String) → mark v ((id, 1) ∷ st) ≡ 0 → mark v st ≡ 0
  keeps_white e v h = ground (arith, h, eq_iff id v)

  pub white-start :
      (us : List String) → In id us → mark id st ≡ 0 → white us ((id, 1) ∷ st) < white us st
  white-start [] m e = absurd m
  white-start (u ∷ us) (inl p) e =
      ground (arith, e, p, eq_iff id u, white_mono st ((id, 1) ∷ st) us (keeps_white e))
  white-start (u ∷ us) (inr m) e = ground (arith, e, eq_iff id u, white-start us m e)

pub done-le-length : (us : List String) (st : Marks) → done us st ≤ length us
done-le-length [] st = omega arith
done-le-length (u ∷ us) st = ground (arith, done-le-length us st)

pub white-le-length : (us : List String) (st : Marks) → white us st ≤ length us
white-le-length [] st = omega arith
white-le-length (u ∷ us) st = ground (arith, white-le-length us st)
