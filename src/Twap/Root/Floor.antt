-- ===== src/Twap/Root/Floor.antt =====
-- That the loop of `integer_sqrt` in programs/twap_oracle/core/src/lib.rs ends, with the floor of
-- the square root.
use native.Mathlib.Nat.{pow-zero, pow-suc, pow-le-pow_right, mul-pos, mul-le-mul}
use lez_programs.Shared.{
  ℕ, zero, suc, ◌+◌, ◌-◌, ◌*◌, ◌/◌, ◌^◌, ◌<◌, ◌≤◌, ◌≡◌, refl, arith, ok, ◌==◌, some, true, false,
  ap, ◌∙◌, inl, inr, pow-add, checked_sub, lt-or-le,
}
use lez_programs.Twap.Root.{bit_length, leading_zeros, root_turn, root_loop, integer_sqrt}

-- `s` is the floor of the square root of `n`.
abbrev pub IsFloorRoot : ℕ → ℕ → Type 0
IsFloorRoot n s = (s * s ≤ n) × (n < suc s * suc s)

-- One turn at `d = p * p`, where `r` is the part of the root found before, `c = 2 * r * p` and
-- `x = n - r * r`: it finds the next part.
root_turn_takes :
    (c d x : ℕ) → c + d < 2 ^ 256 → c + d ≤ x → root_turn c d x ≡ ok (c / 2 + d, x - (c + d))
unfolding root_turn
root_turn_takes c d x h le = ground arith

root_turn_leaves : (c d x : ℕ) → c + d < 2 ^ 256 → x < c + d → root_turn c d x ≡ ok (c / 2, x)
unfolding root_turn
root_turn_leaves c d x h lt = ground arith

root_turn_lem :
    (n r p c x : ℕ)
    → c ≡ 2 * (r * p)
    → n ≡ x + r * r
    → x < 4 * (r * p) + 4 * (p * p)
    → r + 2 * p ≤ 2 ^ 128
    → 0 < p
    → (r' : ℕ) × (x' : ℕ) × (root_turn c (p * p) x ≡ ok (r' * p, x'))
      × (n ≡ x' + r' * r')
      × (x' < 2 * (r' * p) + p * p)
      × (r' + p ≤ 2 ^ 128)
root_turn_lem n r p c x hc hn hx hr hp =
    let square : (r + p) * (r + p) ≤ (2 ^ 128 - 1) * (2 ^ 128 - 1) =
      mul-le-mul {n₁ = r + p} {m₁ = r + p} {n₂ = 2 ^ 128 - 1} {m₂ = 2 ^ 128 - 1} (omega arith)
        (omega arith) in
    let bound : c + p * p < 2 ^ 256 = omega arith in
    let half : c / 2 ≡ r * p = omega arith in
    elim (lt-or-le x (c + p * p)) [
      | inl lt ↦ (
        r,
        x,
        root_turn_leaves c (p * p) x bound lt ∙ ap (λ (t : ℕ). ok (t, x)) half,
        hn,
        omega arith,
        omega arith,
      )
      | inr le ↦ (
        r + p,
        x - (c + p * p),
        root_turn_takes c (p * p) x bound le
            ∙ ap (λ (t : ℕ). ok (t, x - (c + p * p))) (omega arith),
        omega arith,
        omega arith,
        omega arith,
      )
    ]

pow-pos : (k : ℕ) → 0 < 2 ^ k
pow-pos zero = rw pow-zero (omega arith)
pow-pos (suc k) = (let before = pow-pos k in rw pow-suc (omega arith))

root_loop_turn :
    (f c d x : ℕ) {c' x' : ℕ}
    → 0 < d
    → root_turn c d x ≡ ok (c', x')
    → root_loop (suc f) c d x ≡ root_loop f c' (d / 4) x'
unfolding root_loop
root_loop_turn f c d x pos e = let n : (d == 0) ≡ false = ground arith in rw (root_loop, n, e) refl

root_loop_stops : (f c x : ℕ) → root_loop (suc f) c 0 x ≡ ok c
unfolding root_loop
root_loop_stops f c x = refl

root_loop-IsFloorRoot :
    (k fuel n r c p d x : ℕ)
    → p ≡ 2 ^ k
    → d ≡ p * p
    → c ≡ 2 * (r * p)
    → n ≡ x + r * r
    → x < 4 * (r * p) + 4 * (p * p)
    → r + 2 * p ≤ 2 ^ 128
    → k ≤ fuel
    → (s : ℕ) × (root_loop (suc (suc fuel)) c d x ≡ ok s) × IsFloorRoot n s
root_loop-IsFloorRoot zero f n r c p d x hp hd hc hn hx hr hf =
    let one : p ≡ 1 = hp ∙ pow-zero 2 in
    let (r', x', e, hn', hx', hr') = root_turn_lem n r p c x hc hn hx hr (omega arith) in
    let whole : d ≡ 1 = hd ∙ rw one refl in
    let small : d / 4 ≡ 0 = rw whole refl in
    let first : root_turn c d x ≡ ok (r' * p, x') = rw hd e in
    let turn = root_loop_turn (suc f) c d x (omega arith) first in
    let last : r' * p ≡ r' = rw one (omega arith) in
    let square : p * p ≡ 1 = rw one refl in
    (r', turn ∙ rw (small, root_loop_stops, last) refl, (omega arith, omega arith))
root_loop-IsFloorRoot (suc k) (suc f) n r c p d x hp hd hc hn hx hr hf =
    let q = 2 ^ k in
    let twice : p ≡ q * 2 = hp ∙ pow-suc 2 k in
    let some_power : 0 < q = pow-pos k in
    let (r', x', e, hn', hx', hr') = root_turn_lem n r p c x hc hn hx hr (omega arith) in
    let quarter : d / 4 ≡ q * q = rw (hd, twice) (omega arith) in
    let whole : p * p ≡ 4 * (q * q) = rw twice (omega arith) in
    let part : r' * p ≡ 2 * (r' * q) = rw twice (omega arith) in
    let first : root_turn c d x ≡ ok (r' * p, x') = rw hd e in
    let square_pos : 0 < q * q = mul-pos some_power some_power in
    let turn = root_loop_turn (suc (suc f)) c d x (omega arith) first in
    let (s, found, floor) =
      root_loop-IsFloorRoot k f n r' (r' * p) q (d / 4) x' refl quarter part hn' (omega arith)
        (omega arith) (omega arith) in
    (s, turn ∙ found, floor)
root_loop-IsFloorRoot (suc k) zero n r c p d x hp hd hc hn hx hr hf =
    let none_left : suc k ≤ 0 = hf in absurd (omega arith)

bit_length-zero : (count n : ℕ) → n ≡ 0 → bit_length count n ≡ 0
unfolding bit_length
bit_length-zero zero n h = refl
bit_length-zero (suc count) n h = (let is_zero : (n == 0) ≡ true = ground arith in rw is_zero refl)

bit_length_lem :
    (count n : ℕ)
    → n < 2 ^ count
    → 0 < n
    → (b : ℕ) × (bit_length count n ≡ suc b) × (n < 2 ^ suc b) × (suc b ≤ count)
unfolding bit_length
bit_length_lem zero n h pos = (let one = pow-zero 2 in absurd (omega arith))
bit_length_lem (suc count) n h pos =
    let nonzero : (n == 0) ≡ false = ground arith in
    let twice : 2 ^ suc count ≡ 2 ^ count * 2 = pow-suc 2 count in
    elim (lt-or-le n 2) [
      | inl lt ↦ (
        0,
        rw (bit_length, nonzero) (ap suc (bit_length-zero count (n / 2) (omega arith))),
        (let two : 2 ^ suc 0 ≡ 2 = refl in omega arith),
        omega arith,
      )
      | inr le ↦
          (let (b, e, small, count_bound) =
              bit_length_lem count (n / 2) (omega arith) (omega arith) in
            let twice_b : 2 ^ suc (suc b) ≡ 2 ^ suc b * 2 = pow-suc 2 (suc b) in
            (suc b, rw (bit_length, nonzero) (ap suc e), omega arith, omega arith))
    ]

-- The loop starts at the power of four below `n`.
start_lem :
    (n b : ℕ)
    → n < 2 ^ suc b
    → suc b ≤ 256
    → (s : ℕ) × (root_loop 129 0 (2 ^ (b / 2 * 2)) n ≡ ok s) × IsFloorRoot n s
start_lem n b small bound =
    let k = b / 2 in
    let p = 2 ^ k in
    let even : b / 2 * 2 ≡ k + k = omega arith in
    let square : 2 ^ (b / 2 * 2) ≡ p * p = ap (λ (t : ℕ). 2 ^ t) even ∙ pow-add 2 k k in
    let top : 2 ^ suc b ≤ 2 ^ (k + k + 2) = pow-le-pow_right {n = 2} (omega arith) (omega arith) in
    let split : 2 ^ (k + k + 2) ≡ p * p * 4 = pow-add 2 (k + k) 2 ∙ rw (pow-add 2 k k) refl in
    let k_bound : k ≤ 127 = omega arith in
    let fits : p ≤ 2 ^ 127 = pow-le-pow_right {n = 2} (omega arith) k_bound in
    root_loop-IsFloorRoot k 127 n 0 0 p (2 ^ (b / 2 * 2)) n refl square (omega arith) (omega arith)
      (omega arith) (omega arith) (omega arith)

integer_sqrt-zero : (n : ℕ) → n ≡ 0 → integer_sqrt n ≡ ok 0
unfolding integer_sqrt
integer_sqrt-zero n h = (let is_zero : (n == 0) ≡ true = ground arith in rw is_zero refl)

integer_sqrt-positive :
    (n b : ℕ)
    → 0 < n
    → bit_length 256 n ≡ suc b
    → suc b ≤ 256
    → integer_sqrt n ≡ root_loop 129 0 (2 ^ (b / 2 * 2)) n
unfolding integer_sqrt
integer_sqrt-positive n b pos e bound =
    let nonzero : (n == 0) ≡ false = ground arith in
    let found : checked_sub 255 (leading_zeros n) ≡ some b = rw e (ground arith) in
    rw (nonzero, found) refl

-- The square root of a 256-bit number is found without a panic, within the 129 turns of the
-- model's loop, and it is the floor of the real root.
pub integer_sqrt-IsFloorRoot :
    (n : ℕ) → n < 2 ^ 256 → (s : ℕ) × (integer_sqrt n ≡ ok s) × IsFloorRoot n s
integer_sqrt-IsFloorRoot n h = elim (lt-or-le 0 n) [
  | inl pos ↦
      (let (b, e, small, bound) = bit_length_lem 256 n h pos in
        let (s, found, floor) = start_lem n b small bound in
        (s, integer_sqrt-positive n b pos e bound ∙ found, floor))
  | inr none_left ↦ (0, integer_sqrt-zero n (omega arith), (omega arith, omega arith))
]
