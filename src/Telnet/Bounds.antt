-- ===== src/Telnet/Bounds.antt =====
-- The buffer of suboptions in src/comm.c.
use mudos_v22pre.Prelude.{ℕ, ◌≤◌, Bool, true, false, List, [], ◌∷◌, ◌==◌, leb, if◌then◌else◌, arith}
use mudos_v22pre.Telnet.State.{
  TelnetState, ts_data, ts_iac, ts_sb, ts_sb_iac, ts_do, ts_dont, ts_will, ts_wont, Answer,
  Interactive, put_sb, take_data, take_iac, take_sb_iac, take_sb, take_in, take_will, take_do,
  take_byte, copy_chars, sb_size,
}

-- The bytes of a suboption stand in `sb_buf`.
abbrev pub IsWithin : Interactive → Type 0
IsWithin ip = ip.sb_pos ≤ sb_size

if-IsWithin :
    (b : Bool) (x y : Interactive × List ℕ)
    → IsWithin x.0
    → IsWithin y.0
    → IsWithin (if b then x else y).0
if-IsWithin true x y h k = h
if-IsWithin false x y h k = k

module _ (after : Answer → Bool → Bool) where
  take_data-IsWithin : (c : ℕ) (ip : Interactive) → IsWithin ip → IsWithin (take_data after c ip).0
  unfolding take_data
  take_data-IsWithin c ip h = ground arith

  take_iac-IsWithin : (c : ℕ) (ip : Interactive) → IsWithin ip → IsWithin (take_iac after c ip).0
  unfolding take_iac
  take_iac-IsWithin c ip h = ground arith

  take_sb-IsWithin : (c : ℕ) (ip : Interactive) → IsWithin ip → IsWithin (take_sb after c ip).0
  unfolding take_sb
  take_sb-IsWithin c ip h = ground arith

  quoted-IsWithin :
      (ip : Interactive)
      → IsWithin ip
      → IsWithin (if leb sb_size ip.sb_pos then ip else record (put_sb 255 ip) { state = ts_sb })
  quoted-IsWithin ip h = ground arith

  take_sb_iac-IsWithin :
      (c : ℕ) (ip : Interactive) → IsWithin ip → IsWithin (take_sb_iac after c ip).0
  unfolding take_sb_iac
  take_sb_iac-IsWithin c ip h =
      if-IsWithin (c == 255) _ _ (quoted-IsWithin ip h)
        (if-IsWithin (c == 240) _ (take_iac after c ip) h (take_iac-IsWithin c ip h))

  take_will-IsWithin : (c : ℕ) (ip : Interactive) → IsWithin ip → IsWithin (take_will after c ip)
  unfolding take_will
  take_will-IsWithin c ip h = ground arith

  take_do-IsWithin : (c : ℕ) (ip : Interactive) → IsWithin ip → IsWithin (take_do after c ip)
  unfolding take_do
  take_do-IsWithin c ip h = ground arith

  take_in-IsWithin :
      (st : TelnetState) (c : ℕ) (ip : Interactive)
      → IsWithin ip
      → IsWithin (take_in after st c ip).0
  unfolding take_in
  take_in-IsWithin ts_data c ip h = take_data-IsWithin c ip h
  take_in-IsWithin ts_iac c ip h = take_iac-IsWithin c ip h
  take_in-IsWithin ts_sb_iac c ip h = take_sb_iac-IsWithin c ip h
  take_in-IsWithin ts_sb c ip h = take_sb-IsWithin c ip h
  take_in-IsWithin ts_do c ip h = take_do-IsWithin c ip h
  take_in-IsWithin ts_dont c ip h = h
  take_in-IsWithin ts_will c ip h = take_will-IsWithin c ip h
  take_in-IsWithin ts_wont c ip h = h

  -- Whatever bytes come, at most 100 of a suboption are kept.
  copy_chars-IsWithin :
      (from : List ℕ) (ip : Interactive) → IsWithin ip → IsWithin (copy_chars after from ip).0
  unfolding copy_chars take_byte
  copy_chars-IsWithin [] ip h = h
  copy_chars-IsWithin (c ∷ from) ip h =
      copy_chars-IsWithin from (take_byte after c ip).0 (take_in-IsWithin ip.state c ip h)
