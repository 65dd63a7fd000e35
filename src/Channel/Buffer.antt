-- ===== src/Channel/Buffer.antt =====
-- A channel that meets the laws of `ChannelApi`: a bounded buffer. The tests run on it.
use rillnet.Base.{
  ℕ, ◌≤◌, ◌≡◌, refl, ◌⊎◌, Bool, true, false, Option, none, some, List, [], ◌∷◌, ◌++◌, length, ltb,
  ◌&&◌, arith, if◌then◌else◌,
}
use rillnet.Frame.{Frame}
use rillnet.Channel.{ChannelApi, Asio}

pub record Buffer (A : Type 0) : Type 0 where
  pub items : List A
  pub open_flag : Bool
  pub room : ℕ

module _ {A : Type 0} where
  abbrev pub send : A → Buffer A → Option (Buffer A)
  send a b =
      if b.open_flag && ltb (length b.items) b.room
      then some (record b { items = b.items ++ a ∷ [] })
      else none

  abbrev pub take_first : List A → Buffer A → Option (A × Buffer A)
  take_first [] b = none
  take_first (a ∷ rest) b = some (a, record b { items = rest })

  abbrev pub shut : Buffer A → Buffer A
  shut b = record b { open_flag = false }

  pub send_taken :
      (a : A) (c c' : Buffer A)
      → send a c ≡ some c'
      → (c'.items ≡ c.items ++ a ∷ [])
        × (c.open_flag ≡ true)
        × (c'.open_flag ≡ true)
        × (c'.room ≡ c.room)
  send_taken a c c' e = ground arith

  pub send_refused :
      (a : A) (c : Buffer A) → send a c ≡ none → (c.open_flag ≡ false) ⊎ (c.room ≤ length c.items)
  send_refused a c e = ground arith

  pub first_taken :
      (c : Buffer A) (a : A) (c' : Buffer A)
      → take_first c.items c ≡ some (a, c')
      → (c.items ≡ a ∷ c'.items) × (c'.open_flag ≡ c.open_flag) × (c'.room ≡ c.room)
  first_taken c a c' e = ground arith

  pub first_absent : (c : Buffer A) → take_first c.items c ≡ none → c.items ≡ []
  first_absent c e = ground arith

abbrev pub buffer_api : (A : Type 0) → ChannelApi A
buffer_api A = record {
  Channel = Buffer A;
  make = λ n. record { items = []; open_flag = true; room = n };
  try_send = send;
  receive = λ b. take_first b.items b;
  close = shut;
  held = λ b. b.items;
  is_open = λ b. b.open_flag;
  capacity = λ b. b.room;
  make_new = λ n. (refl, refl, refl);
  try_send_some = send_taken;
  try_send_none = send_refused;
  receive_some = first_taken;
  receive_none = first_absent;
  close_closed = λ c. (refl, refl, refl);
}

abbrev pub buffers : Asio
buffers = record { frames = buffer_api Frame; signals = buffer_api (Unit {0}) }
