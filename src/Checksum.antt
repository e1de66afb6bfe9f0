-- ===== src/Checksum.antt =====
-- `csum` of MyDEBUG.cc: the Internet checksum over `nwords` words of two bytes.
pub mod Verify
pub mod Reference
use torupload.Base.{ℕ, zero, suc, ◌+◌, ◌-◌, ◌/◌, ◌%◌, ◌^◌}
use torupload.Message.{Buffer, load16}

-- The loop; `sum` is an `unsigned long` of 64 bits.
sum_words : Buffer → ℕ → ℕ → ℕ → ℕ
sum_words f o zero sum = sum
sum_words f o (suc nwords) sum = sum_words f (suc (suc o)) nwords ((sum + load16 f o) % 2 ^ 64)

-- The two folds of the carries, and the complement cut to 16 bits.
unfoldable pub fold : ℕ → ℕ
fold sum = let s = sum / 65536 + sum % 65536 in s + s / 65536

unfoldable pub csum : Buffer → ℕ → ℕ → ℕ
unfolding sum_words fold
csum f o nwords = 65535 - fold (sum_words f o nwords 0) % 65536
