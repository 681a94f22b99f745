-- ===== src/Mapping/Key.antt =====
-- What src/mapping.c takes of the values that are keys.
use mudos_v22pre.Prelude.{ℕ, ◌/◌, Bool, true, ◌≡◌, ap, ◌==◌, ==_self, ==_iff, arith, ◌∙◌}

-- `hash` is `svalue_to_int`, with the strings among the keys shared, and `same` is `msameval`.
pub record Keys {ℓ} (K : Type ℓ) : Type ℓ where
  pub hash : K → ℕ
  pub same : K → K → Bool
  pub same_self : (a : K) → same a a ≡ true
  pub same_sym : (a b : K) → same a b ≡ same b a
  pub same_congr : (a b c : K) → same a b ≡ true → same a c ≡ same b c
  pub hash_same : (a b : K) → same a b ≡ true → hash a ≡ hash b

module _ {ℓ} {K : Type ℓ} ⦃keys : Keys K⦄ where
  pub same_right : (a b c : K) → keys.same a b ≡ true → keys.same c a ≡ keys.same c b
  same_right a b c h = keys.same_sym c a ∙ (keys.same_congr a b c h ∙ keys.same_sym b c)

  -- A test that does not tell keys apart that are the same.
  abbrev pub Respects : (K → Bool) → Type ℓ
  Respects p = (a b : K) → keys.same a b ≡ true → p a ≡ p b

-- `MAP_POINTER_HASH`
abbrev pub map_pointer_hash : ℕ → ℕ
map_pointer_hash w = w / 16

pub same_word-congr : (a b c : ℕ) → (a == b) ≡ true → (a == c) ≡ (b == c)
same_word-congr a b c h = ap (λ x. x == c) ((==_iff a b).0 h)

pub same_word-sym : (a b : ℕ) → (a == b) ≡ (b == a)
same_word-sym a b = ground arith

-- Keys that are told apart by their words, as all are but reals.
instance abbrev pub word_keys : Keys ℕ
word_keys = record {
  hash = map_pointer_hash;
  same = ◌==◌;
  same_self = ==_self;
  same_sym = same_word-sym;
  same_congr = same_word-congr;
  hash_same = λ a b h. ap map_pointer_hash ((==_iff a b).0 h);
}
