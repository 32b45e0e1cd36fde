-- ===== src/Io/Endian.antt =====
-- What the crate uses of byteorder: the words that bytes stand for, in both orders.
use lzma_no_std_rs.Base.{ℕ, ◌+◌, ◌*◌, ◌/◌, ◌^◌, ◌≡◌, List, [], ◌∷◌, u8}

-- `trait ByteOrder`
pub record ByteOrder : Type 0 where
  pub from_u32 : List ℕ → ℕ
  pub from_u64 : List ℕ → ℕ
  pub to_u32 : ℕ → List ℕ
  pub to_u64 : ℕ → List ℕ

-- `BigEndian` and `LittleEndian`, of four bytes and of eight.
pub record Endian : Type 0 where
  pub big : ByteOrder
  pub little : ByteOrder
  pub big_u32 :
      (a b c d : ℕ) → big.from_u32 (a ∷ b ∷ c ∷ d ∷ []) ≡ ((a * 256 + b) * 256 + c) * 256 + d
  pub little_u32 :
      (a b c d : ℕ) → little.from_u32 (a ∷ b ∷ c ∷ d ∷ []) ≡ a + 256 * (b + 256 * (c + 256 * d))
  pub little_u64 :
      (a b c d e f g h : ℕ)
      → little.from_u64 (a ∷ b ∷ c ∷ d ∷ e ∷ f ∷ g ∷ h ∷ [])
        ≡ a + 256 * (b + 256 * (c + 256 * (d + 256 * (e + 256 * (f + 256 * (g + 256 * h))))))
  pub little_put_u32 :
      (n : ℕ) → little.to_u32 n ≡ u8 n ∷ u8 (n / 2 ^ 8) ∷ u8 (n / 2 ^ 16) ∷ u8 (n / 2 ^ 24) ∷ []
  pub little_put_u64 :
      (n : ℕ)
      → little.to_u64 n
        ≡ u8 n
          ∷ u8 (n / 2 ^ 8)
          ∷ u8 (n / 2 ^ 16)
          ∷ u8 (n / 2 ^ 24)
          ∷ u8 (n / 2 ^ 32)
          ∷ u8 (n / 2 ^ 40)
          ∷ u8 (n / 2 ^ 48)
          ∷ u8 (n / 2 ^ 56)
          ∷ []
