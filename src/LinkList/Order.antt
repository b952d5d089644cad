-- ===== src/LinkList/Order.antt =====
-- Lists of addresses without a repetition, and the parts of such a list.
use rellaf.Prelude.{ℕ, ◌≡◌, refl, sym, List, [], ◌∷◌, ◌++◌}
use rellaf.LinkList.Segment.{Avoids, Distinct, last_of}

module _ {ℓ} {T : Type ℓ} where
  pub Avoids-remove :
      (q : ℕ) (us vs : List (ℕ × T)) (x : ℕ × T) → Avoids q (us ++ x ∷ vs) → Avoids q (us ++ vs)
  Avoids-remove q [] vs x h = h.1
  Avoids-remove q (a ∷ us) vs x h = (h.0, Avoids-remove q us vs x h.1)

  pub Distinct-remove :
      (us vs : List (ℕ × T)) (x : ℕ × T) → Distinct (us ++ x ∷ vs) → Distinct (us ++ vs)
  Distinct-remove [] vs x h = h.1
  Distinct-remove (a ∷ us) vs x h = (Avoids-remove a.0 us vs x h.0, Distinct-remove us vs x h.1)

  pub Avoids-front : (q : ℕ) (us vs : List (ℕ × T)) → Avoids q (us ++ vs) → Avoids q us
  Avoids-front q [] vs h = tt
  Avoids-front q (a ∷ us) vs h = (h.0, Avoids-front q us vs h.1)

  pub Avoids-back : (q : ℕ) (us vs : List (ℕ × T)) → Avoids q (us ++ vs) → Avoids q vs
  Avoids-back q [] vs h = h
  Avoids-back q (a ∷ us) vs h = Avoids-back q us vs h.1

  pub Distinct-front : (us vs : List (ℕ × T)) → Distinct (us ++ vs) → Distinct us
  Distinct-front [] vs h = tt
  Distinct-front (a ∷ us) vs h = (Avoids-front a.0 us vs h.0, Distinct-front us vs h.1)

  pub Distinct-back : (us vs : List (ℕ × T)) → Distinct (us ++ vs) → Distinct vs
  Distinct-back [] vs h = h
  Distinct-back (a ∷ us) vs h = Distinct-back us vs h.1

  pub Avoids-first : (us vs : List (ℕ × T)) (y : ℕ × T) → Distinct (us ++ y ∷ vs) → Avoids y.0 us
  Avoids-first [] vs y h = tt
  Avoids-first (a ∷ us) vs y h =
      (λ e. (Avoids-back a.0 us (y ∷ vs) h.0).0 (sym e), Avoids-first us vs y h.1)

  pub Avoids-last :
      (a : ℕ × T) (us vs : List (ℕ × T)) → Distinct (a ∷ (us ++ vs)) → Avoids (last_of a us) vs
  Avoids-last a [] vs h = h.0
  Avoids-last a (a' ∷ us) vs h = Avoids-last a' us vs h.1

  pub last_of-append :
      (u : ℕ × T) (us : List (ℕ × T)) (v : ℕ × T) (vs : List (ℕ × T))
      → last_of u (us ++ v ∷ vs) ≡ last_of v vs
  last_of-append u [] v vs = refl
  last_of-append u (u' ∷ us) v vs = last_of-append u' us v vs
