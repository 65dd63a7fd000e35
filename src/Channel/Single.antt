-- ===== src/Channel/Single.antt =====
-- A channel that is empty, or holds one value.
use rillnet.Base.{◌≤◌, ◌≡◌, sym, ◌∙◌, ap, true, some, [], ◌∷◌, ◌++◌, arith, inl, inr, Option-cases}
use rillnet.Channel.{ChannelApi}

module _ {A : Type 0} (api : ChannelApi A) where
  pub try_send_empty :
      (a : A) (c : api.Channel)
      → api.held c ≡ []
      → api.is_open c ≡ true
      → 1 ≤ api.capacity c
      → (c' : api.Channel) × (api.try_send a c ≡ some c') × (api.held c' ≡ a ∷ [])
  try_send_empty a c empty opened room = elim (Option-cases (api.try_send a c)) [
    | inl e ↦ absurd (ground (arith, api.try_send_none a c e, empty, opened, room))
    | inr (c', e) ↦ (c', e, (api.try_send_some a c c' e).0 ∙ ap (λ xs. xs ++ a ∷ []) empty)
  ]

  received_first :
      (a b : A) (c c' : api.Channel)
      → api.held c ≡ a ∷ []
      → api.receive c ≡ some (b, c')
      → (b ≡ a) × (api.held c' ≡ [])
  received_first a b c c' holds e =
      let same : b ∷ api.held c' ≡ a ∷ [] = sym (api.receive_some c b c' e).0 ∙ holds in
      (cc same, cc same)

  pub receive_single :
      (a : A) (c : api.Channel)
      → api.held c ≡ a ∷ []
      → (c' : api.Channel) × (api.receive c ≡ some (a, c')) × (api.held c' ≡ [])
  receive_single a c holds = elim (Option-cases (api.receive c)) [
    | inl e ↦ absurd (cc (sym holds ∙ api.receive_none c e))
    | inr ((b, c'), e) ↦
        let (same, rest) = received_first a b c c' holds e in
        (c', e ∙ ap (λ x. some (x, c')) same, rest)
  ]
