-- ===== src/Machine.antt =====
-- What the program takes from its machine: the AES functions, the bytes that an object holds
-- before it is written to, and the addresses of the interfaces.
use torupload.Base.{ℕ}
use torupload.Message.{Buffer}
use torupload.Aes.{Aes}

-- `nic n` is what `getIPforThisNIC` reads for the interface `eth<n>`, in network order.
pub record Machine : Type 0 where
  pub aes : Aes
  pub indeterminate : Buffer
  pub nic : ℕ → ℕ
