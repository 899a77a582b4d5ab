-- ===== src/Types/Xad/Fields.antt =====
-- Reading an extent entry after writing one of its fields.
use jfsfuse.Prelude.{ℕ, ◌%◌, ◌^◌, ◌<◌, ◌≡◌, refl, arith}
use jfsfuse.Types.Pxd
use jfsfuse.Types.Pxd.Fields as PxdFields
use jfsfuse.Types.Xad.{
  Xad, IsWords, offset, set_offset, length_of, set_length, address, set_address, set_flag,
}

module _ (x : Xad) where
  pub length_of-lt : length_of x < 2 ^ 24
  unfolding length_of
  length_of-lt = PxdFields.length_of-lt x.loc

  pub offset-lt : IsWords x → offset x < 2 ^ 40
  unfolding offset
  offset-lt w = omega arith

  pub address-lt : IsWords x → address x < 2 ^ 40
  unfolding address
  address-lt w = PxdFields.address-lt w.loc_words

module _ (n : ℕ) (x : Xad) where
  pub offset-set_offset : offset (set_offset n x) ≡ n % 2 ^ 40
  unfolding offset set_offset
  offset-set_offset = omega arith

  pub length_of-set_offset : length_of (set_offset n x) ≡ length_of x
  unfolding length_of set_offset
  length_of-set_offset = refl

  pub address-set_offset : address (set_offset n x) ≡ address x
  unfolding address set_offset
  address-set_offset = refl

  pub offset-set_length : offset (set_length n x) ≡ offset x
  unfolding offset set_length
  offset-set_length = refl

  pub length_of-set_length : length_of (set_length n x) ≡ n % 2 ^ 24
  unfolding length_of set_length
  length_of-set_length = PxdFields.length_of-set_length n x.loc

  pub address-set_length : address (set_length n x) ≡ address x
  unfolding address set_length
  address-set_length = PxdFields.address-set_length n x.loc

  pub offset-set_address : offset (set_address n x) ≡ offset x
  unfolding offset set_address
  offset-set_address = refl

  pub length_of-set_address : length_of (set_address n x) ≡ length_of x
  unfolding length_of set_address
  length_of-set_address = PxdFields.length_of-set_address n x.loc

  pub address-set_address : address (set_address n x) ≡ n % 2 ^ 40
  unfolding address set_address
  address-set_address = PxdFields.address-set_address n x.loc

  pub offset-set_flag : offset (set_flag n x) ≡ offset x
  unfolding offset set_flag
  offset-set_flag = refl

  pub length_of-set_flag : length_of (set_flag n x) ≡ length_of x
  unfolding length_of set_flag
  length_of-set_flag = refl

  pub address-set_flag : address (set_flag n x) ≡ address x
  unfolding address set_flag
  address-set_flag = refl

-- The three readings of an entry whose offset, length and address were written in this order.
pub written :
    (off len addr : ℕ) (x : Xad)
    → let y = set_address addr (set_length len (set_offset off x)) in
      (offset y ≡ off % 2 ^ 40) × (length_of y ≡ len % 2 ^ 24) × (address y ≡ addr % 2 ^ 40)
unfolding offset set_offset length_of set_length address set_address Pxd.length_of Pxd.set_length
    Pxd.address Pxd.set_address
written off len addr x = omega arith

pub shortened :
    (len : ℕ) (x : Xad)
    → let y = set_length len x in
      (offset y ≡ offset x) × (length_of y ≡ len % 2 ^ 24) × (address y ≡ address x)
shortened len x = (offset-set_length len x, length_of-set_length len x, address-set_length len x)

-- All readings after one write, for `simp`.
pub ruleset xad_fields = (
  offset-set_offset, length_of-set_offset, address-set_offset, offset-set_length,
  length_of-set_length, address-set_length, offset-set_address, length_of-set_address,
  address-set_address, offset-set_flag, length_of-set_flag, address-set_flag,
)
