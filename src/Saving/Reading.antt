-- ===== src/Saving/Reading.antt =====
-- What is read of the text of saved members, once their sizes are noted.
use mudos_v22pre.Prelude.{
  ℕ, zero, suc, ◌+◌, ◌≤◌, false, Option, some, List, ◌∷◌, ◌≡◌, refl, ap, ◌∙◌, arith,
}
use mudos_v22pre.Saving.Value.{
  Value, number, real, string, array, class, mapping, other, Values, nil, cons,
}
use mudos_v22pre.Saving.Save.{save_items, escape}
use mudos_v22pre.Saving.Numeric.{parse_numeric}
use mudos_v22pre.Saving.Scan.{numeral, token, Sizes, enter}
use mudos_v22pre.Saving.Restore.{
  Reader, Kind, an_array, a_class, of_kind, opening, Members, members, with_member, take_member,
  finish_container, container, too_large, interior_string, restore_items,
}
use mudos_v22pre.Saving.Texts.{number-text, interior_string-escape}
use mudos_v22pre.Saving.Plain.{count, Plain, weight, weight_pos, nests, Agrees}
use mudos_v22pre.Saving.Scanning.{at}

module _ (e : Reader) where
  restore-numeral :
      (f : ℕ) (k : Kind) (n c : ℕ) (cp rest : List ℕ) (v : Value) (st : Sizes)
      → token c ≡ numeral
      → parse_numeric e.floats c cp ≡ some (v, rest)
      → (restore_items e (suc f) k (suc n) (c ∷ cp) st
          ≡ with_member v (restore_items e f k n rest st))
  unfolding restore_items
  restore-numeral f k n c cp rest v st h b = rw (restore_items, h, b) refl

  restore-string :
      (f : ℕ) (k : Kind) (n : ℕ) (cp rest w : List ℕ) (st : Sizes)
      → interior_string false cp ≡ some (w, 44 ∷ rest)
      → (restore_items e (suc f) k (suc n) (34 ∷ cp) st
          ≡ with_member (string w) (restore_items e f k n rest st))
  unfolding restore_items
  restore-string f k n cp rest w st b = rw (restore_items, b) refl

  restore-inner :
      (f : ℕ) (k k' : Kind) (n o c : ℕ) (cp rest : List ℕ) (xs : Values) (st st' : Sizes)
      → opening (o ∷ cp) ≡ of_kind k' cp
      → too_large e k' (st.sizes st.save_svalue_depth) ≡ false
      → (restore_items e f k' (st.sizes st.save_svalue_depth) cp (enter st)
          ≡ some (members xs (c ∷ 41 ∷ 44 ∷ rest) st'))
      → (restore_items e (suc f) k (suc n) (40 ∷ o ∷ cp) st
          ≡ with_member (container k' xs) (restore_items e f k n rest st'))
  unfolding restore_items
  restore-inner f k k' n o c cp rest xs st st' op small b =
      rw (restore_items, op, small)
        (ap
          (λ (r : Option Members).
            take_member
              (λ (v : Value) (text : List ℕ) (u : Sizes).
                with_member v (restore_items e f k n text u))
              (finish_container k' r))
          b)

  pub small-array : (m : ℕ) → m ≤ e.max_array_size → too_large e an_array m ≡ false
  unfolding too_large
  small-array m h = ground arith

  members_eq :
      {d d' : ℕ} (vs : Values) (rest : List ℕ) (s : ℕ → ℕ)
      → d ≡ d'
      → ◌≡◌ {A = Option Members}
          (some (members vs rest (at d s)))
          (some (members vs rest (at d' s)))
  members_eq vs rest s p = ap (λ (k : ℕ). some (members vs rest (at k s))) p

  -- As many members as were counted are read off a text that they were written to.
  pub restore_items-save :
      (vs : Values)
      → Plain e.max_array_size vs
      → (f : ℕ) (k : Kind) (rest : List ℕ) (d : ℕ) (s : ℕ → ℕ) → weight vs ≤ f
      → Agrees vs d s
      → (restore_items e f k (count vs) (save_items e.floats vs rest) (at d s)
          ≡ some (members vs rest (at (d + nests vs) s)))
  unfolding weight nests save_items token opening
  restore_items-save vs p zero k rest d s h a = absurd (omega (arith, weight_pos vs))
  restore_items-save nil p (suc f) k rest d s h a =
      unfold restore_items in members_eq nil rest s (omega arith)
  restore_items-save (cons (number n) vs) p (suc f) k rest d s h a =
      let tail = save_items e.floats vs rest in
      let (b, cp, q, tk, parsed, _) = number-text e.floats n (44 ∷ tail) p.0 refl in
      ap (λ (x : List ℕ). restore_items e (suc f) k (suc (count vs)) x (at d s)) q
      ∙ (restore-numeral f k (count vs) b cp tail (number n) (at d s) tk parsed
          ∙ ap (with_member (number n)) (restore_items-save vs p.1 f k rest d s (omega arith) a))
  restore_items-save (cons (string w) vs) p (suc f) k rest d s h a =
      let tail = save_items e.floats vs rest in
      restore-string f k (count vs) (escape w (34 ∷ 44 ∷ tail)) tail w (at d s)
        (interior_string-escape w (44 ∷ tail) p.0)
      ∙ ap (with_member (string w)) (restore_items-save vs p.1 f k rest d s (omega arith) a)
  restore_items-save (cons (array xs) vs) p (suc f) k rest d s h a =
      let tail = save_items e.floats vs rest in
      restore-inner f k an_array (count vs) 123 125 (save_items e.floats xs (125 ∷ 41 ∷ 44 ∷ tail))
        tail xs (at d s) (at (suc d + nests xs) s) refl
        (small-array (s d) (omega (arith, a.0, p.0)))
        (ap
            (λ (m : ℕ).
              restore_items e f an_array m (save_items e.floats xs (125 ∷ 41 ∷ 44 ∷ tail))
                (at (suc d) s))
            a.0
          ∙ restore_items-save xs p.1 f an_array (125 ∷ 41 ∷ 44 ∷ tail) (suc d) s (omega arith) a.1)
      ∙ (ap (with_member (array xs))
            (restore_items-save vs p.2 f k rest (suc d + nests xs) s (omega arith) a.2)
          ∙ members_eq (cons (array xs) vs) rest s (omega arith))
  restore_items-save (cons (class xs) vs) p (suc f) k rest d s h a =
      let tail = save_items e.floats vs rest in
      restore-inner f k a_class (count vs) 47 47 (save_items e.floats xs (47 ∷ 41 ∷ 44 ∷ tail)) tail
        xs (at d s) (at (suc d + nests xs) s) refl (unfold too_large in refl)
        (ap
            (λ (m : ℕ).
              restore_items e f a_class m (save_items e.floats xs (47 ∷ 41 ∷ 44 ∷ tail))
                (at (suc d) s))
            a.0
          ∙ restore_items-save xs p.0 f a_class (47 ∷ 41 ∷ 44 ∷ tail) (suc d) s (omega arith) a.1)
      ∙ (ap (with_member (class xs))
            (restore_items-save vs p.1 f k rest (suc d + nests xs) s (omega arith) a.2)
          ∙ members_eq (cons (class xs) vs) rest s (omega arith))
  restore_items-save (cons (real r) vs) p f k rest d s h a = absurd p
  restore_items-save (cons (mapping m) vs) p f k rest d s h a = absurd p
  restore_items-save (cons other vs) p f k rest d s h a = absurd p
