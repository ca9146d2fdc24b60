-- ===== src/Socket/Walk.antt =====
-- The two loops of generate_local_port: the bits of a word and the words of the map that they come to.
use libnl.Prelude.{
  ℕ, zero, suc, ◌+◌, ◌-◌, ◌*◌, ◌%◌, ◌^◌, ◌<◌, ◌≤◌, ◌≡◌, subst, true, false, none, some, List, ◌==◌,
  inl, inr, Bool-cases, Option-cases, arith,
}
use libnl.Prelude.Word.{bit, all_bits}
use libnl.Socket.{try_word, after_word, word, full_word, find_free, next_block, find_port}

turn : (n m : ℕ) → ((n + 13) % 32 + 13 * (m + 1)) % 32 ≡ (n + 13 * (suc m + 1)) % 32
turn n m = omega arith

find_free-none :
    (left w n m : ℕ) → find_free left w n ≡ none → m < left → bit w ((n + 13 * (m + 1)) % 32) ≡ true
unfolding find_free
find_free-none zero w n m h l = absurd (omega arith)
find_free-none (suc left) w n zero h l = ground arith
find_free-none (suc left) w n (suc m) h l =
    subst (λ b. bit w b ≡ true) (turn n m)
      (find_free-none left w ((n + 13) % 32) m (ground arith) (omega arith))

-- 13 is invertible modulo 32.
step_to : (n t : ℕ) → t < 32 → (m : ℕ) × (m < 32) × ((n + 13 * (m + 1)) % 32 ≡ t)
step_to n t l = ((5 * (t + 32 - n % 32) + 31) % 32, omega arith, omega arith)

find_free_full : (w n : ℕ) → w < 2 ^ 32 → find_free 32 w n ≡ none → w ≡ full_word
find_free_full w n h none_free =
    let full : (t : ℕ) → t < 32 → bit w t ≡ true = λ t l.
      let (m, less, e) = step_to n t l in
      subst (λ b. bit w b ≡ true) e (find_free-none 32 w n m none_free less) in
    omega (arith, all_bits 32 w h full)

find_free-some : (left w n b : ℕ) → find_free left w n ≡ some b → (b < 32) × (bit w b ≡ false)
unfolding find_free
find_free-some zero w n b h = absurd (cc)
find_free-some (suc left) w n b h = ground (arith, find_free-some left w ((n + 13) % 32) b)

try_word-none : (w n : ℕ) → w < 2 ^ 32 → try_word w n ≡ none → w ≡ full_word
unfolding try_word
try_word-none w n h e = elim (Bool-cases (w == full_word)) [
  | inl full ↦ ground arith
  | inr free ↦ find_free_full w n h (ground arith)
]

try_word-some : (w n b : ℕ) → try_word w n ≡ some b → (b < 32) × (bit w b ≡ false)
unfolding try_word
try_word-some w n b e = elim (Bool-cases (w == full_word)) [
  | inl full ↦ absurd (ground arith)
  | inr free ↦ find_free-some 32 w n b (ground arith)
]

-- A turn that finds no port goes on to the next, and the word that it looked at is full.
find_port_next :
    (left : ℕ) (ports : List ℕ) (i n : ℕ)
    → word ports (next_block (31 - left) i) < 2 ^ 32
    → find_port (suc left) ports i n ≡ none
    → (word ports (next_block (31 - left) i) ≡ full_word)
      × ((n' : ℕ) × (find_port left ports (next_block (31 - left) i) n' ≡ none))
unfolding find_port
find_port_next left ports i n v h =
    let w = word ports (next_block (31 - left) i) in
    elim (Option-cases (try_word w n)) [
      | inl absent ↦ (try_word-none w n v absent, (after_word w n, ground arith))
      | inr (b, found) ↦ absurd (ground arith)
    ]

-- The word at each turn from the first to the last but one.
around : (i k : ℕ) → (((i + 6) % 31 + 1) + 6 + 7 * k) % 31 + 1 ≡ (i + 6 + 7 * suc k) % 31 + 1
around i k = omega arith

find_port-none :
    (left : ℕ) (ports : List ℕ) (i n k : ℕ)
    → left ≤ 32
    → ((j : ℕ) → word ports j < 2 ^ 32)
    → find_port left ports i n ≡ none
    → k + 1 < left
    → word ports ((i + 6 + 7 * k) % 31 + 1) ≡ full_word
unfolding find_port next_block
find_port-none zero ports i n k h v none_free l = absurd (omega arith)
find_port-none (suc left) ports i n zero h v none_free l =
    ground (arith, find_port_next left ports i n (v (next_block (31 - left) i)) none_free)
find_port-none (suc left) ports i n (suc k) h v none_free l =
    let (_, (n', rest)) = find_port_next left ports i n (v (next_block (31 - left) i)) none_free in
    subst (λ j. word ports j ≡ full_word) (around i k)
      (find_port-none left ports ((i + 6) % 31 + 1) n' k (omega arith) v (ground arith)
        (omega arith))

find_port_zero :
    (left : ℕ) (ports : List ℕ) (i n : ℕ)
    → left < 32
    → ((j : ℕ) → word ports j < 2 ^ 32)
    → find_port (suc left) ports i n ≡ none
    → word ports 0 ≡ full_word
unfolding find_port next_block
find_port_zero zero ports i n l v h = (find_port_next zero ports i n (v 0) h).0
find_port_zero (suc left) ports i n l v h =
    let (_, (n', rest)) =
      find_port_next (suc left) ports i n (v (next_block (31 - suc left) i)) h in
    find_port_zero left ports (next_block (31 - suc left) i) n' (omega arith) v rest

-- 7 is invertible modulo 31.
block_at : (i t : ℕ) → 0 < t → t < 32 → (k : ℕ) × (k + 1 < 32) × ((i + 6 + 7 * k) % 31 + 1 ≡ t)
block_at i t p l = (9 * (t + 30 - (i + 6) % 31) % 31, omega arith, omega arith)

-- No port is found only if every word is full.
pub find_port_full :
    (ports : List ℕ) (i n t : ℕ)
    → ((j : ℕ) → word ports j < 2 ^ 32)
    → find_port 32 ports i n ≡ none
    → t < 32
    → word ports t ≡ full_word
find_port_full ports i n zero v h l = find_port_zero 31 ports i n (omega arith) v h
find_port_full ports i n (suc t) v h l =
    let (k, less, e) = block_at i (suc t) (omega arith) l in
    subst (λ j. word ports j ≡ full_word) e (find_port-none 32 ports i n k (omega arith) v h less)

next_block-lt : (j i : ℕ) → next_block j i < 32
unfolding next_block
next_block-lt j i = ground arith

-- A port that is found is free.
pub find_port-some :
    (left : ℕ) (ports : List ℕ) (i n j b : ℕ)
    → find_port left ports i n ≡ some (j, b)
    → (j < 32) × (b < 32) × (bit (word ports j) b ≡ false)
unfolding find_port
find_port-some zero ports i n j b h = absurd (cc)
find_port-some (suc left) ports i n j b h =
    let w = word ports (next_block (31 - left) i) in
    elim (Option-cases (try_word w n)) [
      | inl absent ↦
          find_port-some left ports (next_block (31 - left) i) (after_word w n) j b (ground arith)
      | inr (c, found) ↦
          let (less, clear) = try_word-some w n c found in
          ground (arith, next_block-lt (31 - left) i, less, clear)
    ]
