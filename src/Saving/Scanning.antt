-- ===== src/Saving/Scanning.antt =====
-- What a scan finds in the text of saved members.
use mudos_v22pre.Prelude.{
  ℕ, zero, suc, ◌+◌, ◌≤◌, Bool, false, not, Option, some, List, ◌∷◌, ◌≡◌, refl, ap, ap₂, ◌∙◌, arith,
  update,
}
use mudos_v22pre.Saving.Value.{
  number, real, string, array, class, mapping, other, Values, nil, cons, Floats,
}
use mudos_v22pre.Saving.Save.{save_items, escape}
use mudos_v22pre.Saving.Scan.{
  closer, numeral, token, Sizes, Scanned, counted, scan, skip_string, behind, opens, note_size,
  enter,
}
use mudos_v22pre.Saving.Texts.{number-text, skip_string-escape}
use mudos_v22pre.Saving.Plain.{count, Plain, weight, weight_pos, nests, marked}

abbrev pub at : ℕ → (ℕ → ℕ) → Sizes
at d s = record { save_svalue_depth = d; sizes = s }

module _ (fl : Floats) (max : ℕ) where
  scan-close :
      (f size : ℕ) (ix : Bool) (c : ℕ) (rest : List ℕ) (st : Sizes)
      → token c ≡ closer
      → scan (suc f) false ix size (c ∷ 41 ∷ rest) st ≡ some (counted size rest st)
  unfolding scan
  scan-close f size ix c rest st h = rw (scan, h) refl

  scan-numeral :
      (f size : ℕ) (ix : Bool) (c : ℕ) (cp rest : List ℕ) (st : Sizes)
      → token c ≡ numeral
      → behind 44 cp ≡ some rest
      → scan (suc f) false ix size (c ∷ cp) st ≡ scan f false (not ix) (suc size) rest st
  unfolding scan
  scan-numeral f size ix c cp rest st h b = rw (scan, h, b) refl

  scan-string :
      (f size : ℕ) (ix : Bool) (cp rest : List ℕ) (st : Sizes)
      → skip_string false cp ≡ some (44 ∷ rest)
      → scan (suc f) false ix size (34 ∷ cp) st ≡ scan f false (not ix) (suc size) rest st
  unfolding scan
  scan-string f size ix cp rest st b = rw (scan, b) refl

  scan-container :
      (f size n c : ℕ) (ix : Bool) (cp rest : List ℕ) (st st' : Sizes)
      → opens (c ∷ cp) ≡ some (false, cp)
      → scan f false false 0 cp (enter st) ≡ some (counted n (44 ∷ rest) st')
      → (scan (suc f) false ix size (40 ∷ c ∷ cp) st
          ≡ scan f false (not ix) (suc size) rest (note_size st.save_svalue_depth n st'))
  unfolding scan
  scan-container f size n c ix cp rest st st' o b = rw (scan, o, b) refl

  counted_eq :
      {a b d e : ℕ} (rest : List ℕ) (s : ℕ → ℕ)
      → a ≡ b
      → d ≡ e
      → ◌≡◌ {A = Option Scanned} (some (counted a rest (at d s))) (some (counted b rest (at e s)))
  counted_eq rest s p q = ap₂ (λ (n k : ℕ). some (counted n rest (at k s))) p q

  -- A scan counts the members, and notes the size of each container in them.
  pub scan-items :
      (vs : Values)
      → Plain max vs
      → (f size : ℕ) (ix : Bool) (c : ℕ) (rest : List ℕ) (d : ℕ) (s : ℕ → ℕ) → weight vs ≤ f
      → token c ≡ closer
      → (scan f false ix size (save_items fl vs (c ∷ 41 ∷ rest)) (at d s)
          ≡ some (counted (size + count vs) rest (at (d + nests vs) (marked vs d s))))
  unfolding weight nests marked save_items behind opens token
  scan-items vs p zero size ix c rest d s h t = absurd (omega (arith, weight_pos vs))
  scan-items nil p (suc f) size ix c rest d s h t =
      scan-close f size ix c rest (at d s) t ∙ counted_eq rest s (omega arith) (omega arith)
  scan-items (cons (number n) vs) p (suc f) size ix c rest d s h t =
      let tail = save_items fl vs (c ∷ 41 ∷ rest) in
      let (b, cp, e, tk, _, skip) = number-text fl n (44 ∷ tail) p.0 refl in
      ap (λ (x : List ℕ). scan (suc f) false ix size x (at d s)) e
      ∙ (scan-numeral f size ix b cp tail (at d s) tk skip
          ∙ (scan-items vs p.1 f (suc size) (not ix) c rest d s (omega arith) t
              ∙ counted_eq rest (marked vs d s) (omega arith) refl))
  scan-items (cons (string w) vs) p (suc f) size ix c rest d s h t =
      let tail = save_items fl vs (c ∷ 41 ∷ rest) in
      scan-string f size ix (escape w (34 ∷ 44 ∷ tail)) tail (at d s)
        (skip_string-escape w (44 ∷ tail))
      ∙ (scan-items vs p.1 f (suc size) (not ix) c rest d s (omega arith) t
          ∙ counted_eq rest (marked vs d s) (omega arith) refl)
  scan-items (cons (array xs) vs) p (suc f) size ix c rest d s h t =
      let tail = save_items fl vs (c ∷ 41 ∷ rest) in
      let sized : ℕ → ℕ = update (marked xs (suc d) s) d (count xs) in
      let inner = scan-items xs p.1 f 0 false 125 (44 ∷ tail) (suc d) s (omega arith) refl in
      scan-container f size (count xs) 123 ix (save_items fl xs (125 ∷ 41 ∷ 44 ∷ tail)) tail
        (at d s) (at (suc d + nests xs) (marked xs (suc d) s)) refl
        (inner ∙ counted_eq (44 ∷ tail) (marked xs (suc d) s) (omega arith) refl)
      ∙ (scan-items vs p.2 f (suc size) (not ix) c rest (suc d + nests xs) sized (omega arith) t
          ∙ counted_eq rest (marked vs (suc d + nests xs) sized) (omega arith) (omega arith))
  scan-items (cons (class xs) vs) p (suc f) size ix c rest d s h t =
      let tail = save_items fl vs (c ∷ 41 ∷ rest) in
      let sized : ℕ → ℕ = update (marked xs (suc d) s) d (count xs) in
      let inner = scan-items xs p.0 f 0 false 47 (44 ∷ tail) (suc d) s (omega arith) refl in
      scan-container f size (count xs) 47 ix (save_items fl xs (47 ∷ 41 ∷ 44 ∷ tail)) tail (at d s)
        (at (suc d + nests xs) (marked xs (suc d) s)) refl
        (inner ∙ counted_eq (44 ∷ tail) (marked xs (suc d) s) (omega arith) refl)
      ∙ (scan-items vs p.1 f (suc size) (not ix) c rest (suc d + nests xs) sized (omega arith) t
          ∙ counted_eq rest (marked vs (suc d + nests xs) sized) (omega arith) (omega arith))
  scan-items (cons (real r) vs) p f size ix c rest d s h t = absurd p
  scan-items (cons (mapping m) vs) p f size ix c rest d s h t = absurd p
  scan-items (cons other vs) p f size ix c rest d s h t = absurd p
