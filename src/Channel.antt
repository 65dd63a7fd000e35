-- ===== src/Channel.antt =====
-- The parts of Boost.Asio that the sources use and that this repository does not hold: the
-- experimental channel. An operation of the model that uses a channel takes this record, whose
-- laws are the documented behaviour: what was sent is received in order, a closed channel takes
-- nothing and still hands out what it holds, and an open one refuses only when it is full.
pub mod Buffer
pub mod Single
use rillnet.Base.{
  ℕ, ◌≤◌, ◌≡◌, ◌⊎◌, Bool, true, false, Option, none, some, List, [], ◌∷◌, ◌++◌, length,
}
use rillnet.Frame.{Frame}

pub record ChannelApi (A : Type 0) : Type 1 where
  pub Channel : Type 0
  pub make : ℕ → Channel
  pub try_send : A → Channel → Option Channel
  -- What async_receive hands out at once: none where it waits or, on a closed channel, fails.
  pub receive : Channel → Option (A × Channel)
  pub close : Channel → Channel
  -- What was sent and not yet received, oldest first.
  pub held : Channel → List A
  pub is_open : Channel → Bool
  pub capacity : Channel → ℕ
  pub make_new :
      (n : ℕ) → (held (make n) ≡ []) × (is_open (make n) ≡ true) × (capacity (make n) ≡ n)
  pub try_send_some :
      (a : A) (c c' : Channel)
      → try_send a c ≡ some c'
      → (held c' ≡ held c ++ a ∷ [])
        × (is_open c ≡ true)
        × (is_open c' ≡ true)
        × (capacity c' ≡ capacity c)
  pub try_send_none :
      (a : A) (c : Channel)
      → try_send a c ≡ none
      → (is_open c ≡ false) ⊎ (capacity c ≤ length (held c))
  pub receive_some :
      (c : Channel) (a : A) (c' : Channel)
      → receive c ≡ some (a, c')
      → (held c ≡ a ∷ held c') × (is_open c' ≡ is_open c) × (capacity c' ≡ capacity c)
  pub receive_none : (c : Channel) → receive c ≡ none → held c ≡ []
  pub close_closed :
      (c : Channel)
      → (held (close c) ≡ held c) × (is_open (close c) ≡ false) × (capacity (close c) ≡ capacity c)

-- The two kinds of channel that the sources use.
pub record Asio : Type 1 where
  pub frames : ChannelApi Frame
  pub signals : ChannelApi (Unit {0})
