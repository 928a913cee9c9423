-- ===== src/Prelude/Int.antt =====
-- Signed integers over the native numbers, for the values of Go's int64.
use bloem_community_crowquil.Prelude.{
  ℕ, suc, ◌+◌, ◌-◌, ◌≤◌, ◌<◌, ◌≡◌, refl, Bool, true, false, arith, ltb, leb, ◌==◌, if◌then◌else◌,
}

-- `negsuc n` is -(n + 1).
pub data ℤ : Type 0 where
  pos : ℕ → ℤ
  negsuc : ℕ → ℤ

abbrev pub pos_part : ℤ → ℕ
pos_part (pos n) = n
pos_part (negsuc n) = 0

abbrev pub neg_part : ℤ → ℕ
neg_part (pos n) = 0
neg_part (negsuc n) = suc n

abbrev pub sub_ℕ : ℕ → ℕ → ℤ
sub_ℕ a b = if leb b a then pos (a - b) else negsuc (b - a - 1)

infixl 65 ◌+ℤ◌ ◌-ℤ◌
infix 50 ◌≤ℤ◌
unfoldable pub ◌+ℤ◌ : ℤ → ℤ → ℤ
a +ℤ b = sub_ℕ (pos_part a + pos_part b) (neg_part a + neg_part b)

unfoldable pub ◌-ℤ◌ : ℤ → ℤ → ℤ
a -ℤ b = sub_ℕ (pos_part a + neg_part b) (neg_part a + pos_part b)

abbrev pub ◌≤ℤ◌ : ℤ → ℤ → Type 0
a ≤ℤ b = pos_part a + neg_part b ≤ pos_part b + neg_part a

abbrev pub ltb_ℤ : ℤ → ℤ → Bool
ltb_ℤ a b = ltb (pos_part a + neg_part b) (pos_part b + neg_part a)

-- One lemma for each operation lets `omega` and `ground` work with the operations shut.
pub +ℤ_parts :
    (a b : ℤ)
    → pos_part (a +ℤ b) + neg_part a + neg_part b ≡ neg_part (a +ℤ b) + pos_part a + pos_part b
unfolding ◌+ℤ◌
+ℤ_parts a b = ground arith

pub -ℤ_parts :
    (a b : ℤ)
    → pos_part (a -ℤ b) + neg_part a + pos_part b ≡ neg_part (a -ℤ b) + pos_part a + neg_part b
unfolding ◌-ℤ◌
-ℤ_parts a b = ground arith

pub eq_of_parts : (a b : ℤ) → pos_part a + neg_part b ≡ pos_part b + neg_part a → a ≡ b
eq_of_parts a b h = ground arith

pub ruleset int_laws = (arith, +ℤ_parts, -ℤ_parts, eq_of_parts)

pub +ℤ_zero : (a : ℤ) → pos 0 +ℤ a ≡ a
+ℤ_zero a = omega int_laws

pub +ℤ_assoc : (a b c : ℤ) → a +ℤ b +ℤ c ≡ a +ℤ (b +ℤ c)
+ℤ_assoc a b c = omega int_laws

pub +ℤ_swap : (a b c : ℤ) → a +ℤ (b +ℤ c) ≡ b +ℤ (a +ℤ c)
+ℤ_swap a b c = omega int_laws

pub -ℤ_of_sum : (u t r : ℤ) → u ≡ t +ℤ r → u -ℤ t ≡ r
-ℤ_of_sum u t r h = rw h (eq_of_parts _ _ (omega int_laws))

-- A sum within a bound stays there when one part gives something back.
pub refund_left : (u r t m : ℤ) → pos 0 ≤ℤ t → u +ℤ r ≤ℤ m → (u -ℤ t) +ℤ r ≤ℤ m
refund_left u r t m h b = omega int_laws

pub refund_right : (u r t m : ℤ) → pos 0 ≤ℤ t → u +ℤ r ≤ℤ m → u +ℤ (r -ℤ t) ≤ℤ m
refund_right u r t m h b = omega int_laws

pub +ℤ_right_comm : (a b c : ℤ) → a +ℤ b +ℤ c ≡ a +ℤ c +ℤ b
+ℤ_right_comm a b c = omega int_laws

pub +ℤ_cancel_middle : (a b c : ℤ) → a +ℤ b +ℤ c -ℤ b ≡ a +ℤ c
+ℤ_cancel_middle a b c = eq_of_parts _ _ (omega int_laws)

pub not_ltb_ℤ→≤ℤ : (a b : ℤ) → ltb_ℤ a b ≡ false → b ≤ℤ a
not_ltb_ℤ→≤ℤ a b h = ground arith

pub ltb_ℤ→<ℤ : (a b : ℤ) → ltb_ℤ a b ≡ true → pos_part a + neg_part b < pos_part b + neg_part a
ltb_ℤ→<ℤ a b h = ground arith

pub ≤ℤ_assoc : (u r b m : ℤ) → u +ℤ r +ℤ b ≤ℤ m → u +ℤ (r +ℤ b) ≤ℤ m
≤ℤ_assoc u r b m h = omega int_laws

pub +ℤ-pos_zero : (a : ℤ) → a +ℤ pos 0 ≡ a
+ℤ-pos_zero a = omega int_laws

abbrev pub eqb_ℤ : ℤ → ℤ → Bool
eqb_ℤ a b = pos_part a + neg_part b == pos_part b + neg_part a

pub +ℤ_move : (h r p t : ℤ) → h +ℤ r +ℤ p -ℤ t ≡ h +ℤ (r -ℤ t) +ℤ p
+ℤ_move h r p t = eq_of_parts _ _ (omega int_laws)

pub shift_charge : (u r t m : ℤ) → u +ℤ r ≤ℤ m → (u +ℤ t) +ℤ (r -ℤ t) ≤ℤ m
shift_charge u r t m h = omega int_laws

pub +ℤ_comm : (a b : ℤ) → a +ℤ b ≡ b +ℤ a
+ℤ_comm a b = omega int_laws

pub one_le_sum : (a b : ℤ) → pos 1 ≤ℤ a → pos 0 ≤ℤ b → pos 1 ≤ℤ a +ℤ b
one_le_sum a b h k = omega int_laws

abbrev pub leb_ℤ : ℤ → ℤ → Bool
leb_ℤ a b = leb (pos_part a + neg_part b) (pos_part b + neg_part a)
