-- ===== src/VecMap.antt =====
-- src/vec_map.rs: a map from small keys to values, as a vector of optional values.
pub mod Laws
mod Tests
use packetry.Base.{
  ℕ, zero, suc, ◌+◌, ◌-◌, ◌*◌, ◌/◌, ◌%◌, Bool, Option, none, some, List, [], ◌∷◌, ◌++◌, leb, ltb,
  if◌then◌else◌, length, get_elem?, set, replicate, Result, ok, err, panic, ◌>>=◌, unwrap,
}
use packetry.Usb.Fields.{Direction, direction_bit, direction_from}

-- `Key`: an index for each key, and back. The conversion back may panic.
pub record Key (K : Type 0) : Type 0 where
  pub id : K → ℕ
  pub key : ℕ → Result K

-- The keys that convert from and into `u8`; a key is its byte.
abbrev pub byte_key : Key ℕ
byte_key = record { id = λ k. k; key = λ n. if ltb n 256 then ok n else panic }

-- `Id<T>`
abbrev pub id_key : Key ℕ
id_key = record { id = λ k. k; key = λ n. ok n }

-- `EndpointKey` of decoder.rs
pub record EndpointKey : Type 0 where
  pub dev_addr : ℕ
  pub direction : Direction
  pub ep_num : ℕ

unfoldable pub endpoint_key_id : EndpointKey → ℕ
endpoint_key_id k = k.dev_addr * 32 + direction_bit k.direction * 16 + k.ep_num

unfoldable pub endpoint_key_of : ℕ → EndpointKey
unfolding direction_from
endpoint_key_of n = record {
  dev_addr = n / 32 % 256;
  direction = direction_from (n / 16 % 2 % 256);
  ep_num = n % 16 % 256;
}

abbrev pub endpoint_key : Key EndpointKey
endpoint_key = record { id = endpoint_key_id; key = λ n. ok (endpoint_key_of n) }

pub record VecMap (V : Type 0) : Type 0 where
  pub vec : List (Option V)

-- `VecMap::new`, and `with_capacity`, which differs in the memory it reserves.
abbrev pub empty : {V : Type 0} → VecMap V
empty = record { vec = [] }

-- `opt.as_ref()` of the element at the index, where there is one.
abbrev pub slot : {V : Type 0} → Option (Option V) → Option V
slot none = none
slot (some o) = o

module _ {V : Type 0} where
  unfoldable pub len : VecMap V → ℕ
  len m = length m.vec

  -- `get`, by the key's index.
  unfoldable pub get : VecMap V → ℕ → Option V
  get m i = slot (get_elem? m.vec i)

  -- `resize_with(id + 1, || None)`, where `id` is at least the length.
  unfoldable pub resize : List (Option V) → ℕ → List (Option V)
  resize vec id = if leb (length vec) id then vec ++ replicate (id + 1 - length vec) none else vec

  unfoldable pub insert : VecMap V → ℕ → V → VecMap V
  unfolding resize
  insert m i v = record { vec = set (resize m.vec i) i (some v) }

  -- A write through `get_mut`: nothing where there is no value.
  unfoldable pub modify : VecMap V → ℕ → (V → V) → VecMap V
  unfolding get
  modify m i f = elim (slot (get_elem? m.vec i)) [
    | none ↦ m
    | some v ↦ record { vec = set m.vec i (some (f v)) }
  ]

  -- `last_mut`: its key is `K::key(n - 1)`.
  unfoldable pub last : {K : Type 0} → Key K → VecMap V → Result (Option V)
  unfolding get len
  last k m =
      if leb (length m.vec) 0
      then ok none
      else k.key (length m.vec - 1) >>= λ i. ok (get m (k.id i))

  -- `push`: the key that it returns is made of the length after the push.
  unfoldable pub push : {K : Type 0} → Key K → VecMap V → V → Result (K × VecMap V)
  push k m v =
      let vec = m.vec ++ (some v ∷ []) in k.key (length vec) >>= λ i. ok (i, record { vec = vec })

  -- `Index` and `IndexMut`
  unfoldable pub at : VecMap V → ℕ → Result V
  unfolding get
  at m i = unwrap (get m i)

-- The values in the order of their keys, as `into_iter` yields them.
unfoldable pub present : {V : Type 0} → List (Option V) → List V
present [] = []
present (none ∷ xs) = present xs
present (some v ∷ xs) = v ∷ present xs
