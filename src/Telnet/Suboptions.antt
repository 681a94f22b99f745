-- ===== src/Telnet/Suboptions.antt =====
-- The suboptions of the telnet protocol in src/comm.c.
use mudos_v22pre.Prelude.{
  ℕ, ◌+◌, ◌*◌, Bool, false, List, [], ◌∷◌, ◌++◌, ◌==◌, leb, if◌then◌else◌, ◌≡◌, refl, sym, ap, ap₂,
  ◌∙◌, arith, subst, ==_iff, Bool-cases, inl, inr, update,
}
use mudos_v22pre.Telnet.State.{
  ts_data, ts_sb, ts_sb_iac, Answer, window_size, Interactive, goes_to, put_sb, answer, take_data,
  take_iac, take_sb_iac, take_sb, take_in, take_byte, copy_chars, sb_size, size_byte, suboption,
}

-- What a client sends for a byte of a suboption.
abbrev pub quoted : ℕ → List ℕ → List ℕ
quoted c rest = if c == 255 then 255 ∷ 255 ∷ rest else c ∷ rest

abbrev pub window_request : ℕ → ℕ → ℕ → ℕ → List ℕ
window_request a b c d = 255 ∷ 250 ∷ 31 ∷ quoted a (quoted b (quoted c (quoted d (255 ∷ 240 ∷ []))))

module _ (after : Answer → Bool → Bool) where
  abbrev stored : ℕ → ℕ
  stored c = if c == 0 then 73 else c

  silent :
      (c : ℕ) (rest : List ℕ) (ip ip' : Interactive)
      → take_byte after c ip ≡ (ip', [])
      → copy_chars after (c ∷ rest) ip ≡ copy_chars after rest ip'
  unfolding copy_chars
  silent c rest ip ip' e =
      ap
        (λ (p : Interactive × List ℕ).
          ((copy_chars after rest p.0).0, p.1 ++ (copy_chars after rest p.0).1))
        e

  quoted_iac-received :
      (rest : List ℕ) (ip : Interactive)
      → leb sb_size ip.sb_pos ≡ false
      → (copy_chars after (255 ∷ 255 ∷ rest) (goes_to ts_sb ip)
          ≡ copy_chars after rest (goes_to ts_sb (put_sb 255 ip)))
  unfolding take_byte take_in take_sb take_sb_iac
  quoted_iac-received rest ip h =
      silent 255 (255 ∷ rest) (goes_to ts_sb ip) (goes_to ts_sb_iac ip) refl
      ∙ silent 255 rest (goes_to ts_sb_iac ip) (goes_to ts_sb (put_sb 255 ip))
          (rw (take_byte, take_in, take_sb_iac, h) refl)

  quoted-received :
      (c : ℕ) (rest : List ℕ) (ip : Interactive)
      → leb sb_size ip.sb_pos ≡ false
      → (copy_chars after (quoted c rest) (goes_to ts_sb ip)
          ≡ copy_chars after rest (goes_to ts_sb (put_sb (stored c) ip)))
  unfolding take_byte take_in take_sb
  quoted-received c rest ip h = elim (Bool-cases (c == 255)) [
    | inl iac ↦
        subst
          (λ c.
            (copy_chars after (quoted c rest) (goes_to ts_sb ip)
              ≡ copy_chars after rest (goes_to ts_sb (put_sb (stored c) ip))))
          (sym ((==_iff c 255).0 iac)) (quoted_iac-received rest ip h)
    | inr other ↦
        ap
          (λ (b : Bool).
            copy_chars after (if b then 255 ∷ 255 ∷ rest else c ∷ rest) (goes_to ts_sb ip))
          other
        ∙ silent c rest (goes_to ts_sb ip) (goes_to ts_sb (put_sb (stored c) ip))
            (rw (take_byte, take_in, take_sb, other, h) refl)
  ]

  size_byte-stored : (c : ℕ) → (c == 73) ≡ false → size_byte (stored c) ≡ c
  size_byte-stored c h = ground arith

  begun :
      (rest : List ℕ) (ip : Interactive)
      → (copy_chars after (255 ∷ 250 ∷ 31 ∷ rest) (goes_to ts_data ip)
          ≡ copy_chars after rest (goes_to ts_sb (put_sb 31 (record ip { sb_pos = 0 }))))
  unfolding copy_chars take_byte take_in take_sb take_data take_iac
  begun rest ip = refl

  closed :
      (ip : Interactive)
      → let buf = update ip.sb_buf ip.sb_pos 0 in
        (copy_chars after (255 ∷ 240 ∷ []) (goes_to ts_sb ip)
          ≡ (goes_to ts_data (answer after (suboption buf) (record ip { sb_buf = buf })), []))
  unfolding copy_chars take_byte take_in take_sb take_sb_iac
  closed ip = refl

  -- A window size that a client sends, with each byte 255 doubled, calls `window_size` with the width and
  -- the height, if no byte of them is 73; nothing of it gets into the text, and data follow.
  pub window_size-received :
      (a b c d : ℕ) (ip : Interactive)
      → (a == 73) ≡ false
      → (b == 73) ≡ false
      → (c == 73) ≡ false
      → (d == 73) ≡ false
      → ip.state ≡ ts_data
      → let (ip', text) = copy_chars after (window_request a b c d) ip in
        (ip'.trace ≡ window_size (a * 256 + b) (c * 256 + d) ∷ ip.trace)
        × (ip'.state ≡ ts_data)
        × (text ≡ [])
  unfolding suboption
  window_size-received a b c d ip ha hb hc hd st =
      let i0 = put_sb 31 (record ip { sb_pos = 0 }) in
      let i1 = put_sb (stored a) i0 in
      let i2 = put_sb (stored b) i1 in
      let i3 = put_sb (stored c) i2 in
      let i4 = put_sb (stored d) i3 in
      let buf = update i4.sb_buf i4.sb_pos 0 in
      let tail = 255 ∷ 240 ∷ [] in
      let e =
        ap (λ s. copy_chars after (window_request a b c d) (goes_to s ip)) st
        ∙ (begun (quoted a (quoted b (quoted c (quoted d tail)))) ip
            ∙ (quoted-received a (quoted b (quoted c (quoted d tail))) i0 refl
                ∙ (quoted-received b (quoted c (quoted d tail)) i1 refl
                    ∙ (quoted-received c (quoted d tail) i2 refl
                        ∙ (quoted-received d tail i3 refl ∙ closed i4))))) in
      let w = ap₂ (λ x y. x * 256 + y) (size_byte-stored a ha) (size_byte-stored b hb) in
      let h = ap₂ (λ x y. x * 256 + y) (size_byte-stored c hc) (size_byte-stored d hd) in
      (
        ap (λ (q : Interactive × List ℕ). (q.0).trace) e
            ∙ ap₂ (λ x y. window_size x y ∷ ip.trace) w h,
        ap (λ (q : Interactive × List ℕ). (q.0).state) e,
        ap (λ (q : Interactive × List ℕ). q.1) e,
      )
