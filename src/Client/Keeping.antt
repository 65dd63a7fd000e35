-- ===== src/Client/Keeping.antt =====
-- client_connection.hpp: the invariant through branches, and through what ends a connection.
use rillnet.Base.{
  ℕ, zero, suc, ◌≡◌, refl, Bool, true, false, Option, none, some, List, [], ◌∷◌, String, length,
  if◌then◌else◌, Bool-cases, inl, inr,
}
use rillnet.Status.{StatusCode, status_category}
use rillnet.Frame.{Frame}
use rillnet.Frame.Flags
use rillnet.Frame.Flags.{has_flag}
use rillnet.Channel.{Asio}
use rillnet.Client.{
  Client, is_protocol, mark_terminal, fail_one, fail_pending_loop, fail_pending, fail_connection,
  notify_closed,
}
use rillnet.Client.Invariant.{Holds}
use rillnet.Client.Objects.{fail_one-Inv}

module _ (io : Asio) (full : Bool) where
  pub if-Inv :
      (b : Bool) (c d : Client io)
      → Holds io full c
      → Holds io full d
      → Holds io full (if b then c else d)
  if-Inv true c d v w = v
  if-Inv false c d v w = w

  -- A branch on a value that decides only what is done.
  pub opt-Inv :
      {A : Type 0} (o : Option A) (c : Client io) (f : A → Client io)
      → Holds io full c
      → ((a : A) → Holds io full (f a))
      → Holds io full (elim o [ none ↦ c | some a ↦ f a ])
  opt-Inv none c f v each = v
  opt-Inv (some a) c f v each = each a

  pub loop-Inv :
      (fuel : ℕ) (status : StatusCode) (message : String) (c : Client io) (entries : List (ℕ × ℕ))
      → c.pending ≡ entries
      → Holds io full c
      → Holds io full (fail_pending_loop io fuel status message c)
  unfolding fail_pending_loop
  loop-Inv zero status message c entries e v = v
  loop-Inv (suc fuel) status message c [] e v = rw (e, fail_pending_loop) v
  loop-Inv (suc fuel) status message c ((stream, h) ∷ rest) e v =
      let c' = fail_one io status message h c in
      let next =
        loop-Inv fuel status message c' c'.pending refl
          (fail_one-Inv io full status message h c v) in
      simp (e, fail_pending_loop) next

  pub fail_pending-Inv :
      (status : StatusCode) (message : String) (c : Client io)
      → Holds io full c
      → Holds io full (fail_pending io status message c)
  unfolding fail_pending
  fail_pending-Inv status message c v =
      loop-Inv (length c.pending) status message c c.pending refl v

  pub fail_connection-Inv :
      (status : StatusCode) (message : String) (c : Client io)
      → Holds io full c
      → Holds io full (fail_connection io status message c)
  unfolding fail_connection
  fail_connection-Inv status message c v =
      elim (Bool-cases (is_protocol io (status_category status))) [
        | inl reports ↦ rw (reports, fail_connection) (fail_pending-Inv status message _ v)
        | inr silent ↦ rw (silent, fail_connection) (fail_pending-Inv status message c v)
      ]

  pub mark_terminal-Inv :
      (frame : Frame) (c : Client io) → Holds io full c → Holds io full (mark_terminal io frame c)
  unfolding mark_terminal
  mark_terminal-Inv frame c v = if-Inv (has_flag frame.header.flags Flags.end_of_stream) _ c v v

  pub notify_closed-Inv : (c : Client io) → Holds io full c → Holds io full (notify_closed io c)
  unfolding notify_closed
  notify_closed-Inv c v = if-Inv c.closed_notified c _ v v

  -- The same branches on what an operation returns with the client.
  pub pair_if-Inv :
      {A : Type 0} (b : Bool) (x y : Client io × A)
      → Holds io full x.0
      → Holds io full y.0
      → Holds io full (if b then x else y).0
  pair_if-Inv true x y v w = v
  pair_if-Inv false x y v w = w

  pub pair_opt-Inv :
      {A B : Type 0} (o : Option A) (x : Client io × B) (f : A → Client io × B)
      → Holds io full x.0
      → ((a : A) → o ≡ some a → Holds io full (f a).0)
      → let r : Client io × B = elim o [ none ↦ x | some a ↦ f a ] in Holds io full r.0
  pair_opt-Inv none x f v each = v
  pair_opt-Inv (some a) x f v each = each a refl
