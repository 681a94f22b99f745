-- ===== src/Telnet/Stream.antt =====
-- What src/comm.c makes of the bytes of a connection as a whole.
use mudos_v22pre.Prelude.{
  ℕ, ◌*◌, ◌≤◌, Bool, true, false, List, [], ◌∷◌, ◌++◌, ◌==◌, if◌then◌else◌, ◌≡◌, refl, sym, ap, ◌∙◌,
  arith, length, length-append,
}
use mathlib.Core.List.{append_assoc}
use mudos_v22pre.Telnet.State.{
  TelnetState, ts_data, ts_iac, ts_sb, ts_sb_iac, ts_do, ts_dont, ts_will, ts_wont, Answer,
  Interactive, take_data, take_iac, take_sb_iac, take_sb, take_in, take_byte, copy_chars,
}

if_short :
    (b : Bool) (x y : Interactive × List ℕ)
    → length x.1 ≤ 3
    → length y.1 ≤ 3
    → length (if b then x else y).1 ≤ 3
if_short true x y h k = h
if_short false x y h k = k

module _ (after : Answer → Bool → Bool) where
  -- The bytes of a connection give the same text, answers and state wherever the reads cut them.
  copy_chars-append :
      (xs ys : List ℕ) (ip : Interactive)
      → let (ip₁, text₁) = copy_chars after xs ip in
        let (ip₂, text₂) = copy_chars after ys ip₁ in
        copy_chars after (xs ++ ys) ip ≡ (ip₂, text₁ ++ text₂)
  unfolding copy_chars
  copy_chars-append [] ys ip = refl
  copy_chars-append (c ∷ xs) ys ip =
      let p = take_byte after c ip in
      let q = copy_chars after xs p.0 in
      let r = copy_chars after ys q.0 in
      ap (λ (u : Interactive × List ℕ). (u.0, p.1 ++ u.1)) (copy_chars-append xs ys p.0)
      ∙ ap (λ (l : List ℕ). (r.0, l)) (sym (append_assoc p.1 q.1 r.1))

  take_data-length : (c : ℕ) (ip : Interactive) → length (take_data after c ip).1 ≤ 3
  unfolding take_data
  take_data-length c ip = ground arith

  take_iac-length : (c : ℕ) (ip : Interactive) → length (take_iac after c ip).1 ≤ 3
  unfolding take_iac
  take_iac-length c ip = ground arith

  take_sb_iac-length : (c : ℕ) (ip : Interactive) → length (take_sb_iac after c ip).1 ≤ 3
  unfolding take_sb_iac
  take_sb_iac-length c ip =
      if_short (c == 255) _ _ (omega arith)
        (if_short (c == 240) _ (take_iac after c ip) (omega arith) (take_iac-length c ip))

  take_sb-length : (c : ℕ) (ip : Interactive) → length (take_sb after c ip).1 ≤ 3
  unfolding take_sb
  take_sb-length c ip = ground arith

  take_in-length :
      (st : TelnetState) (c : ℕ) (ip : Interactive) → length (take_in after st c ip).1 ≤ 3
  unfolding take_in
  take_in-length ts_data c ip = take_data-length c ip
  take_in-length ts_iac c ip = take_iac-length c ip
  take_in-length ts_sb_iac c ip = take_sb_iac-length c ip
  take_in-length ts_sb c ip = take_sb-length c ip
  take_in-length ts_do c ip = omega arith
  take_in-length ts_dont c ip = omega arith
  take_in-length ts_will c ip = omega arith
  take_in-length ts_wont c ip = omega arith

  take_byte-length : (c : ℕ) (ip : Interactive) → length (take_byte after c ip).1 ≤ 3
  unfolding take_byte
  take_byte-length c ip = take_in-length ip.state c ip

  pub copy_chars-length :
      (from : List ℕ) (ip : Interactive) → length (copy_chars after from ip).1 ≤ 3 * length from
  unfolding copy_chars
  copy_chars-length [] ip = omega arith
  copy_chars-length (c ∷ from) ip =
      let p = take_byte after c ip in
      let q = copy_chars after from p.0 in
      omega (arith, length-append p.1 q.1, take_byte-length c ip, copy_chars-length from p.0)
