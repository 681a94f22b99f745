-- ===== src/Hash.antt =====
-- The string hash of src/hash.c, of which the string table and the object table take the low bits.
use Prim.Native.Nat.{bit_xor}
use mudos_v22pre.Prelude.{
  ℕ, zero, suc, ◌+◌, ◌-◌, ◌*◌, ◌%◌, ◌≤◌, ◌<◌, ◌≡◌, refl, All, List, [], ◌∷◌, arith,
}

-- `T`, the permutation of the bytes.
abbrev table : List ℕ
table =
    1 ∷ 87 ∷ 49 ∷ 12 ∷ 176 ∷ 178 ∷ 102 ∷ 166 ∷ 121 ∷ 193 ∷ 6 ∷ 84 ∷ 249 ∷ 230 ∷ 44 ∷ 163 ∷ 14 ∷ 197
    ∷ 213 ∷ 181 ∷ 161 ∷ 85 ∷ 218 ∷ 80 ∷ 64 ∷ 239 ∷ 24 ∷ 226 ∷ 236 ∷ 142 ∷ 38 ∷ 200 ∷ 110 ∷ 177 ∷ 104
    ∷ 103 ∷ 141 ∷ 253 ∷ 255 ∷ 50 ∷ 77 ∷ 101 ∷ 81 ∷ 18 ∷ 45 ∷ 96 ∷ 31 ∷ 222 ∷ 25 ∷ 107 ∷ 190 ∷ 70
    ∷ 86 ∷ 237 ∷ 240 ∷ 34 ∷ 72 ∷ 242 ∷ 20 ∷ 214 ∷ 244 ∷ 227 ∷ 149 ∷ 235 ∷ 97 ∷ 234 ∷ 57 ∷ 22 ∷ 60
    ∷ 250 ∷ 82 ∷ 175 ∷ 208 ∷ 5 ∷ 127 ∷ 199 ∷ 111 ∷ 62 ∷ 135 ∷ 248 ∷ 174 ∷ 169 ∷ 211 ∷ 58 ∷ 66 ∷ 154
    ∷ 106 ∷ 195 ∷ 245 ∷ 171 ∷ 17 ∷ 187 ∷ 182 ∷ 179 ∷ 0 ∷ 243 ∷ 132 ∷ 56 ∷ 148 ∷ 75 ∷ 128 ∷ 133 ∷ 158
    ∷ 100 ∷ 130 ∷ 126 ∷ 91 ∷ 13 ∷ 153 ∷ 246 ∷ 216 ∷ 219 ∷ 119 ∷ 68 ∷ 223 ∷ 78 ∷ 83 ∷ 88 ∷ 201 ∷ 99
    ∷ 122 ∷ 11 ∷ 92 ∷ 32 ∷ 136 ∷ 114 ∷ 52 ∷ 10 ∷ 138 ∷ 30 ∷ 48 ∷ 183 ∷ 156 ∷ 35 ∷ 61 ∷ 26 ∷ 143 ∷ 74
    ∷ 251 ∷ 94 ∷ 129 ∷ 162 ∷ 63 ∷ 152 ∷ 170 ∷ 7 ∷ 115 ∷ 167 ∷ 241 ∷ 206 ∷ 3 ∷ 150 ∷ 55 ∷ 59 ∷ 151
    ∷ 220 ∷ 90 ∷ 53 ∷ 23 ∷ 131 ∷ 125 ∷ 173 ∷ 15 ∷ 238 ∷ 79 ∷ 95 ∷ 89 ∷ 16 ∷ 105 ∷ 137 ∷ 225 ∷ 224
    ∷ 217 ∷ 160 ∷ 37 ∷ 123 ∷ 118 ∷ 73 ∷ 2 ∷ 157 ∷ 46 ∷ 116 ∷ 9 ∷ 145 ∷ 134 ∷ 228 ∷ 207 ∷ 212 ∷ 202
    ∷ 215 ∷ 69 ∷ 229 ∷ 27 ∷ 188 ∷ 67 ∷ 124 ∷ 168 ∷ 252 ∷ 42 ∷ 4 ∷ 29 ∷ 108 ∷ 21 ∷ 247 ∷ 19 ∷ 205
    ∷ 39 ∷ 203 ∷ 233 ∷ 40 ∷ 186 ∷ 147 ∷ 198 ∷ 192 ∷ 155 ∷ 33 ∷ 164 ∷ 191 ∷ 98 ∷ 204 ∷ 165 ∷ 180
    ∷ 117 ∷ 76 ∷ 140 ∷ 36 ∷ 210 ∷ 172 ∷ 41 ∷ 54 ∷ 159 ∷ 8 ∷ 185 ∷ 232 ∷ 113 ∷ 196 ∷ 231 ∷ 47 ∷ 146
    ∷ 120 ∷ 51 ∷ 65 ∷ 28 ∷ 144 ∷ 254 ∷ 221 ∷ 93 ∷ 189 ∷ 194 ∷ 139 ∷ 112 ∷ 43 ∷ 71 ∷ 109 ∷ 184 ∷ 209
    ∷ []

-- `T[i]`, of an index below 256.
pub byte_at : List ℕ → ℕ → ℕ
byte_at [] i = 0
byte_at (b ∷ bs) zero = b
byte_at (b ∷ bs) (suc i) = byte_at bs i

-- The loop, with at most `i` bytes to go: `oh` and `h` are `unsigned char`.
pub whash_loop : ℕ → List ℕ → ℕ → ℕ → ℕ × ℕ
unfolding byte_at
whash_loop i [] oh h = (oh, h)
whash_loop zero (c ∷ s) oh h = (oh, h)
whash_loop (suc i) (c ∷ s) oh h =
    whash_loop i s (byte_at table (bit_xor oh c)) (byte_at table (bit_xor h c))

-- A text is the list of its bytes, of which none is 0.
unfoldable pub whashstr : List ℕ → ℕ → ℕ
unfolding whash_loop
whashstr [] maxn = 0
whashstr (c ∷ s) maxn =
    let (oh, h) = whash_loop (maxn - 1) s (byte_at table c) ((c + 1) % 256) in oh * 256 + h

-- The hash does not look behind the first `n` bytes.
pub first : ℕ → List ℕ → List ℕ
first zero s = []
first (suc n) [] = []
first (suc n) (c ∷ s) = c ∷ first n s

whash_loop-first :
    (i : ℕ) (s : List ℕ) (oh h : ℕ) → whash_loop i (first i s) oh h ≡ whash_loop i s oh h
unfolding whash_loop first
whash_loop-first zero [] oh h = refl
whash_loop-first zero (c ∷ s) oh h = refl
whash_loop-first (suc i) [] oh h = refl
whash_loop-first (suc i) (c ∷ s) oh h = whash_loop-first i s _ _

whashstr-first : (s : List ℕ) (maxn : ℕ) → 1 ≤ maxn → whashstr (first maxn s) maxn ≡ whashstr s maxn
unfolding whashstr first
whashstr-first s zero h = absurd (omega arith)
whashstr-first [] (suc n) h = refl
whashstr-first (c ∷ s) (suc n) h =
    let e : suc n - 1 ≡ n = omega arith in
    rw (e, whash_loop-first n s (byte_at table c) ((c + 1) % 256))

table_bytes : All (λ b. b < 256) table
table_bytes = omega arith

byte_at-lt : (bs : List ℕ) (i : ℕ) → All (λ b. b < 256) bs → byte_at bs i < 256
unfolding byte_at
byte_at-lt [] i a = omega arith
byte_at-lt (b ∷ bs) zero a = a.0
byte_at-lt (b ∷ bs) (suc i) a = byte_at-lt bs i a.1

whash_loop-lt :
    (i : ℕ) (s : List ℕ) (oh h : ℕ)
    → oh < 256
    → h < 256
    → ((whash_loop i s oh h).0 < 256) × ((whash_loop i s oh h).1 < 256)
unfolding whash_loop
whash_loop-lt i [] oh h p q = (p, q)
whash_loop-lt zero (c ∷ s) oh h p q = (p, q)
whash_loop-lt (suc i) (c ∷ s) oh h p q =
    whash_loop-lt i s _ _ (byte_at-lt table (bit_xor oh c) table_bytes)
      (byte_at-lt table (bit_xor h c) table_bytes)

-- If `maxn` is not 0, the hash is of 16 bits, and depends on at most the first `maxn` bytes of the text.
pub whashstr_bounds :
    (s : List ℕ) (maxn : ℕ)
    → 1 ≤ maxn
    → (whashstr s maxn < 65536) × (whashstr (first maxn s) maxn ≡ whashstr s maxn)
unfolding whashstr
whashstr_bounds [] maxn h = (omega arith, whashstr-first [] maxn h)
whashstr_bounds (c ∷ s) maxn h =
    let (p, q) =
      whash_loop-lt (maxn - 1) s (byte_at table c) ((c + 1) % 256) (byte_at-lt table c table_bytes)
        (omega arith) in
    (omega arith, whashstr-first (c ∷ s) maxn h)
