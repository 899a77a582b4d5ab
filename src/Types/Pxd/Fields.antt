-- ===== src/Types/Pxd/Fields.antt =====
-- The two packed fields of a `Pxd` do not disturb one another, and the bytes give them back.
use jfsfuse.Prelude.{ℕ, ◌%◌, ◌^◌, ◌<◌, ◌≡◌, arith}
use jfsfuse.Types.Pxd.{
  Pxd, IsWords, length_of, set_length, address, set_address, into_bytes, from_bytes,
}

pub length_of-lt : (p : Pxd) → length_of p < 2 ^ 24
unfolding length_of
length_of-lt p = omega arith

pub address-lt : {p : Pxd} → IsWords p → address p < 2 ^ 40
unfolding address
address-lt w = omega arith

pub set_length-IsWords : {p : Pxd} (n : ℕ) → IsWords p → IsWords (set_length n p)
unfolding set_length
set_length-IsWords n w = omega arith

pub set_address-IsWords : (p : Pxd) (a : ℕ) → IsWords (set_address a p)
unfolding set_address
set_address-IsWords p a = omega arith

-- A length below 2^24 is read back, and leaves the address as it was.
pub length_of-set_length : (n : ℕ) (p : Pxd) → length_of (set_length n p) ≡ n % 2 ^ 24
unfolding length_of set_length
length_of-set_length n p = omega arith

pub address-set_length : (n : ℕ) (p : Pxd) → address (set_length n p) ≡ address p
unfolding address set_length
address-set_length n p = omega arith

pub address-set_address : (a : ℕ) (p : Pxd) → address (set_address a p) ≡ a % 2 ^ 40
unfolding address set_address
address-set_address a p = omega arith

pub length_of-set_address : (a : ℕ) (p : Pxd) → length_of (set_address a p) ≡ length_of p
unfolding length_of set_address
length_of-set_address a p = omega arith

-- Writing a length below 2^24 and then an address below 2^40, over any descriptor, gives a
-- descriptor that reads back both values, whatever it held before.
pack_unpack :
    (n a : ℕ) (p : Pxd)
    → n < 2 ^ 24
    → a < 2 ^ 40
    → (length_of (set_address a (set_length n p)) ≡ n)
      × (address (set_address a (set_length n p)) ≡ a)
unfolding length_of set_length address set_address
pack_unpack n a p hn ha = omega arith

-- A descriptor of two 32-bit words is read back from its eight bytes.
pub from_bytes-into_bytes : (p : Pxd) → IsWords p → from_bytes (into_bytes p) ≡ p
unfolding from_bytes into_bytes
from_bytes-into_bytes p w = ground arith
