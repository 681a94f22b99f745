-- ===== src/StringTable/Sharing.antt =====
-- Sharing: what `make_shared_string` of src/stralloc.c does to the strings that can be found.
use Prim.Native.Nat.{min}
use mudos_v22pre.Prelude.{
  ℕ, ◌≤◌, ◌≡◌, refl, sym, ap, ◌∙◌, true, false, inl, inr, Option, none, some, List, [], ◌∷◌, arith,
  ◌==◌, if◌then◌else◌, Bool-cases, Option-cases, update, ==_self, update-update, length, text_eq,
  text_eq→eq, text_eq_self,
}
use mudos_v22pre.HashChain.{
  find, to_front-missing, to_front-found, without, find-without, count-without, count, find-text,
  count-missing,
}
use mudos_v22pre.StringTable.State.{
  Block, StringTable, Config, str_hash, sfindblock, cut, new_block, alloc_new_string, add_string,
  add_new_string, inc_refs, write_block, store, make_shared_string,
}

-- The block that a search for `str` finds.
unfoldable pub view : StringTable → List ℕ → Option Block
view s str = find Block.text str (s.base_table (str_hash s str))

-- No text is twice in the table: in no chain.
pub record IsShared (s : StringTable) : Type 0 where
  pub once : (h : ℕ) (str : List ℕ) → count Block.text str (s.base_table h) ≤ 1

cut_all : (str : List ℕ) (n : ℕ) → length str ≤ n → cut (min (length str) n) str ≡ str
unfolding cut
cut_all str n h = let e : min (length str) n ≡ length str = omega arith in rw e (cut_length str)
  where
    cut_length : (str : List ℕ) → cut (length str) str ≡ str
    cut_length [] = refl
    cut_length (c ∷ str) = ap (λ l. c ∷ l) (cut_length str)

-- A chain with the block of `str` anew, and all other texts as they were.
abbrev pub Renewed : List ℕ → Block → List Block → List Block → Type 0
Renewed str b old new =
    (t : List ℕ) → find Block.text t new ≡ (if text_eq str t then some b else find Block.text t old)

str_hash_same :
    (s s' : StringTable) (t : List ℕ)
    → s'.htable_size ≡ s.htable_size
    → str_hash s' t ≡ str_hash s t
unfolding str_hash
str_hash_same s s' t size = rw size

-- Another slot than that of `str` cannot be asked for `str`.
other_text :
    (s : StringTable) (str t : List ℕ)
    → (str_hash s t == str_hash s str) ≡ false
    → text_eq str t ≡ false
other_text s str t there = elim (Bool-cases (text_eq str t)) [
  | inr differs ↦ differs
  | inl same ↦ let e : str ≡ t = text_eq→eq str t same in let e' = ap (str_hash s) e in ground arith
]

view-Renewed :
    (s s' : StringTable) (str : List ℕ) (b : Block) (chain : List Block)
    → s'.htable_size ≡ s.htable_size
    → s'.base_table ≡ update s.base_table (str_hash s str) chain
    → Renewed str b (s.base_table (str_hash s str)) chain
    → (t : List ℕ) → view s' t ≡ (if text_eq str t then some b else view s t)
unfolding view
view-Renewed s s' str b chain size table renewed t =
    rw (str_hash_same s s' t size, table)
      (elim (Bool-cases (str_hash s t == str_hash s str)) [
        | inl here ↦
            let e : str_hash s t ≡ str_hash s str = ground arith in rw here (rw e (renewed t))
        | inr there ↦ rw (there, other_text s str t there)
      ])

-- What a call of `make_shared_string` leaves of the table, with the block that it returns.
record Made (s : StringTable) (str : List ℕ) (r : StringTable × Block) : Type 0 where
  chain : List Block
  size : r.0.htable_size ≡ s.htable_size
  base : r.0.base_table ≡ update s.base_table (str_hash s str) chain
  renewed : Renewed str r.1 (s.base_table (str_hash s str)) chain
  text : r.1.text ≡ str
  counts :
      (t : List ℕ)
      → count Block.text t chain
        ≡ (if text_eq str t then 1 else count Block.text t (s.base_table (str_hash s str)))

Renewed-cons :
    (str : List ℕ) (b : Block) (old rest : List Block)
    → b.text ≡ str
    → ((t : List ℕ) → text_eq str t ≡ false → find Block.text t rest ≡ find Block.text t old)
    → Renewed str b old (b ∷ rest)
unfolding find
Renewed-cons str b old rest e same t =
    rw e (elim (Bool-cases (text_eq str t)) [ inl hit ↦ rw hit | inr miss ↦ rw miss (same t miss) ])

new_block-text :
    (cfg : Config) (addr : ℕ) (str : List ℕ)
    → length str ≤ cfg.max_string_length
    → (new_block cfg addr str).text ≡ str
unfolding new_block
new_block-text cfg addr str h = cut_all str cfg.max_string_length h

inc_refs-text : (b : Block) → ((inc_refs b).text ≡ b.text) × ((inc_refs b).address ≡ b.address)
unfolding inc_refs
inc_refs-text b = (ground arith, ground arith)

module _ (cfg : Config) (addr : ℕ) (str : List ℕ) (s : StringTable) (shared : IsShared s) where
  abbrev home : List Block
  home = s.base_table (str_hash s str)

  count_new :
      (t : List ℕ) (b : Block)
      → b.text ≡ str
      → find Block.text str home ≡ none
      → count Block.text t (b ∷ home) ≡ (if text_eq str t then 1 else count Block.text t home)
  unfolding count
  count_new t b e missing = rw e (elim (Bool-cases (text_eq str t)) [
    | inl hit ↦
        let same : str ≡ t = text_eq→eq str t hit in
        let z : count Block.text t home ≡ 0 =
          rw (sym same) (count-missing Block.text str home missing) in
        rw hit (omega arith)
    | inr miss ↦ rw miss (omega arith)
  ])

  Made-new :
      length str ≤ cfg.max_string_length
      → find Block.text str home ≡ none
      → Made s str (make_shared_string cfg addr str s)
  unfolding make_shared_string sfindblock alloc_new_string add_string add_new_string
  Made-new fits missing =
      let b = new_block cfg addr str in
      let e = new_block-text cfg addr str fits in
      rw (make_shared_string, missing)
        (record {
          chain = b ∷ home;
          size = refl;
          base =
              rw (to_front-missing Block.text str home missing, ==_self (str_hash s str))
                (update-update s.base_table (str_hash s str) home (b ∷ home));
          renewed = Renewed-cons str b home home e (λ t _. refl);
          text = e;
          counts = λ t. count_new t b e missing;
        })

  count_once :
      (t : List ℕ) (b : Block)
      → find Block.text str home ≡ some b
      → count Block.text t (inc_refs b ∷ without Block.text str home)
        ≡ (if text_eq str t then 1 else count Block.text t home)
  unfolding count
  count_once t b found =
      let e = text_eq→eq b.text str (find-text Block.text str home b found) in
      let kept = count-without Block.text str t home b found in
      rw ((inc_refs-text b).0, e)
        (elim (Bool-cases (text_eq str t)) [
          | inl hit ↦ rw hit (omega (arith, shared.once (str_hash s str) t, rw (e, hit) at kept))
          | inr miss ↦ rw miss (omega (arith, rw (e, miss) at kept))
        ])

  written :
      (b : Block)
      → write_block (inc_refs b) (b ∷ without Block.text str home)
        ≡ inc_refs b ∷ without Block.text str home
  unfolding write_block
  written b =
      let same : (b.address == (inc_refs b).address) ≡ true = ground (arith, inc_refs-text b) in
      rw same

  Made-old :
      (b : Block)
      → find Block.text str home ≡ some b
      → Made s str (make_shared_string cfg addr str s)
  unfolding make_shared_string sfindblock add_string store
  Made-old b found =
      let e = text_eq→eq b.text str (find-text Block.text str home b found) in
      rw (make_shared_string, found)
        (record {
          chain = inc_refs b ∷ without Block.text str home;
          size = refl;
          base =
              rw (to_front-found Block.text str home b found, ==_self (str_hash s str), written b)
                (update-update s.base_table (str_hash s str) (b ∷ without Block.text str home)
                  (inc_refs b ∷ without Block.text str home));
          renewed =
              Renewed-cons str (inc_refs b) home (without Block.text str home)
                ((inc_refs-text b).0 ∙ e)
                (λ t miss.
                  find-without Block.text str t home
                    (λ same. cc (rw (same, text_eq_self str) at miss)));
          text = (inc_refs-text b).0 ∙ e;
          counts = λ t. count_once t b found;
        })

  made : length str ≤ cfg.max_string_length → Made s str (make_shared_string cfg addr str s)
  made fits = elim (Option-cases (find Block.text str home)) [
    | inl missing ↦ Made-new fits missing
    | inr (b, found) ↦ Made-old b found
  ]

  -- If no text is twice in the table, a string that is not too long can be found afterwards, as
  -- the block that was returned; every other text is found as it was before, and no text is twice
  -- in the table.
  pub make_shared_string-view :
      length str ≤ cfg.max_string_length
      → let r = make_shared_string cfg addr str s in
        ((t : List ℕ) → view r.0 t ≡ (if text_eq str t then some r.1 else view s t))
        × (r.1.text ≡ str)
        × IsShared r.0
  make_shared_string-view fits =
      let m = made fits in
      let r = make_shared_string cfg addr str s in
      (
        view-Renewed s r.0 str r.1 m.chain m.size m.base m.renewed,
        m.text,
        record {
          once = λ h t. rw m.base (elim (Bool-cases (h == str_hash s str)) [
            | inl here ↦
                rw (here, m.counts t)
                  (elim (Bool-cases (text_eq str t)) [
                    | inl hit ↦ rw hit (omega arith)
                    | inr miss ↦ rw miss (shared.once (str_hash s str) t)
                  ])
            | inr there ↦ rw there (shared.once h t)
          ]);
        },
      )
