-- ===== src/CallOut/Valid.antt =====
-- The invariant of `call_list` of src/call_out.c, and the operations on one chain.
use mudos_v22pre.Prelude.{
  ℕ, suc, ◌+◌, ◌-◌, ◌*◌, ◌%◌, ◌≤◌, ◌<◌, ◌≡◌, ◌≢◌, Bool, inl, inr, List, [], ◌∷◌, arith, leb,
  Bool-cases, All, update, ◌==◌,
}
use mudos_v22pre.CallOut.Chain.{PendingCall, insert, absorb, unlink, unlink_all}
use mudos_v22pre.CallOut.State.{CallOuts}

-- A handle names the slot of its call, and has been given out.
abbrev pub HasSlot : ℕ → ℕ → PendingCall → Type 0
HasSlot unique slot c = (c.handle % 32 ≡ slot) × (c.handle < 32 * suc unique)

-- The first call of a chain waits for at least one visit.
abbrev pub IsWaiting : List PendingCall → Type 0
IsWaiting [] = Unit
IsWaiting (c ∷ cs) = 1 ≤ c.delta

abbrev pub IsChain : ℕ → ℕ → List PendingCall → Type 0
IsChain unique slot cs = IsWaiting cs × All (HasSlot unique slot) cs

pub record IsValid (s : CallOuts) : Type 0 where
  pub chain : (slot : ℕ) → IsChain s.unique slot (s.call_list slot)

All-HasSlot_mono :
    (u v slot : ℕ) (cs : List PendingCall)
    → u ≤ v
    → All (HasSlot u slot) cs
    → All (HasSlot v slot) cs
All-HasSlot_mono u v slot [] h a = tt
All-HasSlot_mono u v slot (c ∷ cs) h a = ((a.0.0, omega arith), All-HasSlot_mono u v slot cs h a.1)

pub IsChain-mono :
    (u v slot : ℕ) (cs : List PendingCall) → u ≤ v → IsChain u slot cs → IsChain v slot cs
IsChain-mono u v slot cs h a = (a.0, All-HasSlot_mono u v slot cs h a.1)

All-insert :
    (u slot delay : ℕ) (cop : PendingCall) (cs : List PendingCall)
    → HasSlot u slot cop
    → All (HasSlot u slot) cs
    → All (HasSlot u slot) (insert delay cop cs)
unfolding insert
All-insert u slot delay cop [] h a = (h, tt)
All-insert u slot delay cop (c ∷ cs) h a = elim (Bool-cases (leb delay c.delta)) [
  | inl small ↦ rw small (h, (a.0, a.1))
  | inr large ↦ rw large (a.0, All-insert u slot (delay - c.delta) cop cs h a.1)
]

IsWaiting-insert :
    (delay : ℕ) (cop : PendingCall) (cs : List PendingCall)
    → 1 ≤ delay
    → IsWaiting cs
    → IsWaiting (insert delay cop cs)
unfolding insert
IsWaiting-insert delay cop [] h w = h
IsWaiting-insert delay cop (c ∷ cs) h w = ground arith

pub IsChain-insert :
    (u slot delay : ℕ) (cop : PendingCall) (cs : List PendingCall)
    → 1 ≤ delay
    → HasSlot u slot cop
    → IsChain u slot cs
    → IsChain u slot (insert delay cop cs)
IsChain-insert u slot delay cop cs d h a =
    (IsWaiting-insert delay cop cs d a.0, All-insert u slot delay cop cs h a.1)

All-absorb :
    (u slot d : ℕ) (cs : List PendingCall)
    → All (HasSlot u slot) cs
    → All (HasSlot u slot) (absorb d cs)
unfolding absorb
All-absorb u slot d [] a = tt
All-absorb u slot d (c ∷ cs) a = a

All-unlink :
    (test : PendingCall → Bool) (u slot : ℕ) (cs : List PendingCall)
    → All (HasSlot u slot) cs
    → All (HasSlot u slot) (unlink test cs)
unfolding unlink
All-unlink test u slot [] a = tt
All-unlink test u slot (c ∷ cs) a = elim (Bool-cases (test c)) [
  | inl hit ↦ rw hit (All-absorb u slot c.delta cs a.1)
  | inr miss ↦ rw miss (a.0, All-unlink test u slot cs a.1)
]

IsWaiting-absorb : (d : ℕ) (cs : List PendingCall) → 1 ≤ d → IsWaiting (absorb d cs)
unfolding absorb
IsWaiting-absorb d [] h = tt
IsWaiting-absorb d (c ∷ cs) h = omega arith

pub IsChain-unlink :
    (test : PendingCall → Bool) (u slot : ℕ) (cs : List PendingCall)
    → IsChain u slot cs
    → IsChain u slot (unlink test cs)
unfolding unlink
IsChain-unlink test u slot [] a = a
IsChain-unlink test u slot (c ∷ cs) a = elim (Bool-cases (test c)) [
  | inl hit ↦ rw hit (IsWaiting-absorb c.delta cs a.0, All-absorb u slot c.delta cs a.1.1)
  | inr miss ↦ rw miss (a.0, (a.1.0, All-unlink test u slot cs a.1.1))
]

All-unlink_all :
    (test : PendingCall → Bool) (u slot carried : ℕ) (cs : List PendingCall)
    → All (HasSlot u slot) cs
    → All (HasSlot u slot) (unlink_all test carried cs)
unfolding unlink_all
All-unlink_all test u slot carried [] a = tt
All-unlink_all test u slot carried (c ∷ cs) a =
    elim (Bool-cases (test (record c { delta = c.delta + carried }))) [
      | inl hit ↦ rw (unlink_all, hit) (All-unlink_all test u slot (c.delta + carried) cs a.1)
      | inr miss ↦ rw (unlink_all, miss) (a.0, All-unlink_all test u slot 0 cs a.1)
    ]

-- Either the chain starts by a call that waits, or what is carried to it does.
IsWaiting-unlink_all :
    (test : PendingCall → Bool) (carried : ℕ) (c : PendingCall) (cs : List PendingCall)
    → 1 ≤ c.delta + carried
    → IsWaiting (unlink_all test carried (c ∷ cs))
unfolding unlink_all
IsWaiting-unlink_all test carried c [] h =
    elim (Bool-cases (test (record c { delta = c.delta + carried }))) [
      | inl hit ↦ rw (unlink_all, hit) tt
      | inr miss ↦ rw (unlink_all, miss) h
    ]
IsWaiting-unlink_all test carried c (b ∷ cs) h =
    elim (Bool-cases (test (record c { delta = c.delta + carried }))) [
      | inl hit ↦
          rw (unlink_all, hit) (IsWaiting-unlink_all test (c.delta + carried) b cs (omega arith))
      | inr miss ↦ rw (unlink_all, miss) h
    ]

pub IsChain-unlink_all :
    (test : PendingCall → Bool) (u slot : ℕ) (cs : List PendingCall)
    → IsChain u slot cs
    → IsChain u slot (unlink_all test 0 cs)
unfolding unlink_all
IsChain-unlink_all test u slot [] a = a
IsChain-unlink_all test u slot (c ∷ cs) a =
    (IsWaiting-unlink_all test 0 c cs (omega arith), All-unlink_all test u slot 0 (c ∷ cs) a.1)

-- A handle that is not given out yet is on no chain.
pub fresh_handle :
    (u slot h : ℕ) (cs : List PendingCall)
    → All (HasSlot u slot) cs
    → 32 * suc u ≤ h
    → All (λ c. c.handle ≢ h) cs
fresh_handle u slot h [] a k = tt
fresh_handle u slot h (c ∷ cs) a k = (omega arith, fresh_handle u slot h cs a.1 k)

-- A write of a chain that is in order keeps the table in order.
pub IsValid-update :
    (s : CallOuts) (slot : ℕ) (cs : List PendingCall)
    → IsValid s
    → IsChain s.unique slot cs
    → IsValid (record s { call_list = update s.call_list slot cs })
IsValid-update s slot cs v a = record {
  chain = λ i. elim (Bool-cases (i == slot)) [
    | inl here ↦ let e : i ≡ slot = ground arith in rw here (rw e a)
    | inr there ↦ rw there (v.chain i)
  ];
}
