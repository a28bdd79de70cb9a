-- ===== src/Drift/Window.antt =====
-- What the window of src/monitoring/drift_detector.py holds.
use cryptosentinel_ai.Prelude.{
  ℕ, zero, suc, ◌+◌, ◌-◌, ◌≤◌, ◌≡◌, refl, sym, ap, ◌∙◌, inl, inr, true, false, Option, List, [],
  ◌∷◌, ◌++◌, length, length-append, ltb, arith, Bool-cases, ltb→lt,
}
use cryptosentinel_ai.Float.{Float}
use cryptosentinel_ai.Drift.Detector.{Numpy, tail, push, DriftDetector, new_detector, observe_score}

ltb-le : (a b : ℕ) → ltb a b ≡ false → b ≤ a
ltb-le a b e = ground arith

module _ {A : Type 0} where
  -- The list less its first n entries.
  abbrev pub drop : ℕ → List A → List A
  drop zero xs = xs
  drop (suc n) [] = []
  drop (suc n) (x ∷ xs) = drop n xs

  -- The last n entries, or all.
  abbrev pub last : ℕ → List A → List A
  last n xs = drop (length xs - n) xs

  length-drop : (n : ℕ) (xs : List A) → length (drop n xs) ≡ length xs - n
  length-drop zero xs = omega arith
  length-drop (suc n) [] = omega arith
  length-drop (suc n) (x ∷ xs) = omega (arith, length-drop n xs)

  drop-append : (n : ℕ) (xs ys : List A) → n ≤ length xs → drop n xs ++ ys ≡ drop n (xs ++ ys)
  drop-append zero xs ys h = refl
  drop-append (suc n) [] ys h = absurd (omega (arith, h))
  drop-append (suc n) (x ∷ xs) ys h = drop-append n xs ys (omega (arith, h))

  drop_empty : (n : ℕ) → drop n [] ≡ []
  drop_empty zero = refl
  drop_empty (suc n) = refl

  length-tail : (xs : List A) → length (tail xs) ≡ length xs - 1
  length-tail [] = omega arith
  length-tail (x ∷ xs) = omega arith

  tail-drop : (n : ℕ) (xs : List A) → tail (drop n xs) ≡ drop (suc n) xs
  tail-drop zero [] = refl
  tail-drop zero (x ∷ xs) = refl
  tail-drop (suc n) [] = refl
  tail-drop (suc n) (x ∷ xs) = tail-drop n xs

  push-last : (n : ℕ) (x : A) (xs : List A) → push n x (last n xs) ≡ last n (xs ++ x ∷ [])
  unfolding push
  push-last n x xs = elim (Bool-cases (ltb n (length (last n xs ++ x ∷ [])))) [
    | inl over ↦ rw over (
        ap tail (drop-append (length xs - n) xs (x ∷ []) (omega arith))
        ∙ tail-drop (length xs - n) (xs ++ x ∷ [])
        ∙ ap (λ k. drop k (xs ++ x ∷ [])) (full over))
    | inr room ↦ rw room (
        drop-append (length xs - n) xs (x ∷ []) (omega arith)
        ∙ ap (λ k. drop k (xs ++ x ∷ [])) (fits room))
  ]
    where
      size : length (last n xs ++ x ∷ []) ≡ (length xs - (length xs - n)) + 1
      size = omega (arith, length-append (last n xs) (x ∷ []), length-drop (length xs - n) xs)

      full :
          ltb n (length (last n xs ++ x ∷ [])) ≡ true
          → suc (length xs - n) ≡ length (xs ++ x ∷ []) - n
      full e =
          omega (arith, ltb→lt n (length (last n xs ++ x ∷ [])) e, size, length-append xs (x ∷ []))

      fits :
          ltb n (length (last n xs ++ x ∷ [])) ≡ false → length xs - n ≡ length (xs ++ x ∷ []) - n
      fits e =
          omega (arith, ltb-le n (length (last n xs ++ x ∷ [])) e, size, length-append xs (x ∷ []))

module _ (fl : Float) (np : Numpy fl) where
  -- An observation keeps the window within its size.
  pub observe_score_bound :
      (x : fl.F) (d : DriftDetector fl np)
      → length d.window ≤ d.window_size
      → length (observe_score fl np x d).window ≤ (observe_score fl np x d).window_size
  unfolding observe_score push
  observe_score_bound x d h = elim (Bool-cases (ltb d.window_size (length (d.window ++ x ∷ [])))) [
    | inl over ↦
        rw over
          (omega (arith, h, length-append d.window (x ∷ []), length-tail (d.window ++ x ∷ [])))
    | inr room ↦ rw room (omega (arith, ltb-le d.window_size (length (d.window ++ x ∷ [])) room))
  ]

  abbrev pub observe_all : List fl.F → DriftDetector fl np → DriftDetector fl np
  observe_all [] d = d
  observe_all (x ∷ xs) d = observe_all xs (observe_score fl np x d)

  append_empty : (xs : List fl.F) → xs ≡ xs ++ []
  append_empty [] = refl
  append_empty (x ∷ xs) = ap (λ t. x ∷ t) (append_empty xs)

  observe_all-from :
      (xs seen : List fl.F) (d : DriftDetector fl np)
      → d.window ≡ last d.window_size seen
      → (observe_all xs d).window ≡ last d.window_size (seen ++ xs)
  unfolding observe_score
  observe_all-from [] seen d e = e ∙ ap (last d.window_size) (append_empty seen)
  observe_all-from (x ∷ xs) seen d e =
      observe_all-from xs (seen ++ x ∷ []) (observe_score fl np x d)
        (ap (push d.window_size x) e ∙ push-last d.window_size x seen)
      ∙ ap (last d.window_size) (append_step seen)
    where
      append_step : (seen : List fl.F) → (seen ++ x ∷ []) ++ xs ≡ seen ++ x ∷ xs
      append_step [] = refl
      append_step (s ∷ seen) = ap (λ t. s ∷ t) (append_step seen)

  -- A detector that starts anew and has observed some scores holds the last of them in order, `window_size`
  -- of them or all, and its size stays within that bound.
  pub window_holds_last :
      (window_size min_samples : ℕ) (baseline : Option (List fl.F)) (xs : List fl.F)
      → ((observe_all xs (new_detector fl np window_size min_samples baseline)).window
          ≡ last window_size xs)
        × (length (observe_all xs (new_detector fl np window_size min_samples baseline)).window
            ≤ window_size)
  window_holds_last window_size min_samples baseline xs =
      let e =
        observe_all-from xs [] (new_detector fl np window_size min_samples baseline)
          (sym (drop_empty (0 - window_size))) in
      (e, omega (arith, ap length e, length-drop (length xs - window_size) xs))
