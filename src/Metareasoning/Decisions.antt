-- ===== src/Metareasoning/Decisions.antt =====
-- internal/metareasoning/evaluator.go: how the profiles compare, and what an evaluation reports.
use g_lm.Prelude.{◌≡◌, inl, inr, true, List, [], ◌∷◌, arith, Elem, Bool-cases}
use g_lm.Prelude.Texts.{Text, lit, text_eq, text_eq_iff}
use g_lm.Prelude.Floats.{Float64, IsOrdered}
use g_lm.Metareasoning.{decide_with, decide, known_profile}

abbrev pub profiles : List Text
profiles = lit "fast" ∷ lit "default" ∷ lit "strict" ∷ []

abbrev pub decisions : List Text
decisions = lit "accept" ∷ lit "caution" ∷ lit "reject" ∷ []

pub known_profile-Elem : (p : Text) → Elem (known_profile p) profiles
unfolding known_profile
known_profile-Elem p =
    ground (
      arith,
      text_eq_iff p (lit "fast"),
      text_eq_iff p (lit "default"),
      text_eq_iff p (lit "strict"),
    )

module _ (fl : Float64) (o : IsOrdered fl) where
  open fl use {F, le, milli, max}

  -- Lower limits accept less and reject more.
  decide_with_mono :
      (a l rr rc a' l' rr' rc' confidence risk : F)
      → le a a' ≡ true
      → le l' l ≡ true
      → le rr' rr ≡ true
      → le rc rc' ≡ true
      → (decide_with fl a' l' rr' rc' confidence risk ≡ lit "accept"
          → decide_with fl a l rr rc confidence risk ≡ lit "accept")
        × (decide_with fl a l rr rc confidence risk ≡ lit "reject"
            → decide_with fl a' l' rr' rc' confidence risk ≡ lit "reject")
  unfolding decide_with
  decide_with_mono a l rr rc a' l' rr' rc' c r ha hl hr hc =
      let t1 = o.le_trans a a' c ha in
      let t2 : le r l' ≡ true → le r l ≡ true = λ h. o.le_trans r l' l h hl in
      let t3 = o.le_trans rr' rr r hr in
      let t4 : le c rc ≡ true → le c rc' ≡ true = λ h. o.le_trans c rc rc' h hc in ground arith

  -- With thresholds that are numbers, what the strict profile accepts the default one accepts, and
  -- what that accepts the fast one accepts; the rejections go the other way.
  pub decide_mono :
      (confidence risk accept strict : F)
      → o.IsNumber accept
      → o.IsNumber strict
      → (decide fl (lit "strict") confidence risk accept strict ≡ lit "accept"
          → decide fl (lit "default") confidence risk accept strict ≡ lit "accept")
        × (decide fl (lit "default") confidence risk accept strict ≡ lit "accept"
            → decide fl (lit "fast") confidence risk accept strict ≡ lit "accept")
        × (decide fl (lit "fast") confidence risk accept strict ≡ lit "reject"
            → decide fl (lit "default") confidence risk accept strict ≡ lit "reject")
        × (decide fl (lit "default") confidence risk accept strict ≡ lit "reject"
            → decide fl (lit "strict") confidence risk accept strict ≡ lit "reject")
  unfolding decide text_eq
  decide_mono c r accept strict na ns =
      let p =
        decide_with_mono accept (milli 350) (milli 680) (milli 360) (max accept strict) (milli 280)
          (milli 600) (milli 420) c r (o.le_max accept strict na ns)
          (o.milli_mono 280 350 (omega arith)) (o.milli_mono 600 680 (omega arith))
          (o.milli_mono 360 420 (omega arith)) in
      let q =
        decide_with_mono accept (milli 420) (milli 740) (milli 300) accept (milli 350) (milli 680)
          (milli 360) c r (o.le_refl accept na) (o.milli_mono 350 420 (omega arith))
          (o.milli_mono 680 740 (omega arith)) (o.milli_mono 300 360 (omega arith)) in
      (p.0, q.0, q.1, p.1)

module _ (fl : Float64) where
  open fl use {F}

  decide_with-Elem : (a l rr rc c r : F) → Elem (decide_with fl a l rr rc c r) decisions
  unfolding decide_with
  decide_with-Elem a l rr rc c r = ground arith

  pub decide-Elem : (p : Text) (c r a s : F) → Elem (decide fl p c r a s) decisions
  unfolding decide
  decide-Elem p c r a s = elim (Bool-cases (text_eq p (lit "fast"))) [
    | inl e ↦ rw (e, decide) (decide_with-Elem _ _ _ _ c r)
    | inr e ↦ elim (Bool-cases (text_eq p (lit "strict"))) [
      | inl f ↦ rw (e, f, decide) (decide_with-Elem _ _ _ _ c r)
      | inr f ↦ rw (e, f, decide) (decide_with-Elem _ _ _ _ c r)
    ]
  ]
